-- ===== src/Transfer/Active.antt =====
-- An asset has at most one active transfer (asset-transfer.service.ts, `request`), as long as no
-- other request runs between the check and the creation.
use asset_hub.Prelude.{
  ℕ, ◌≤◌, ◌+◌, ◌≡◌, refl, Option, none, Bool, true, ◌&&◌, ◌==◌, List, [], ◌∷◌, ◌++◌, arith, inl,
  inr, ◌⊎◌, Bool-cases,
}
use asset_hub.Prelude.Collection.{count_where, find_one, update_one}
use asset_hub.Prelude.Action.Atomic.{Same-order}
use native.Mathlib.Nat.{le_refl, le_trans}
use asset_hub.Prelude.Action.{Error, Result, ok, err, ◌>>=◌, continue}
use asset_hub.Prelude.Action.Moves.{IsPreorder}
use asset_hub.Models.{Db, AssetTransfer, pending, LifecycleState}
use asset_hub.Database.{create_audit_event, create_transfer}
use asset_hub.Transfer.Calls.{Call, ask, accept, refuse, finish, withdraw, serve, serve_all}
use asset_hub.Access.Scope.{AuthContext}
use asset_hub.Transfer.Workflow.{
  require_events, is_active, request, request_check, request_create, check_user, Input, audit,
}
use asset_hub.Transfer.Progress.{Follows}
use asset_hub.Transfer.OnTransfers.{transfer_writes}
use asset_hub.Transfer.Frame.{
  AllowsWrites, check_user-Moves, request_check-Moves, approve-Moves, reject-Moves, cancel-Moves,
  complete-Moves,
}

-- The active transfers of an asset.
abbrev pub active_for : ℕ → AssetTransfer → Bool
active_for asset_id t = t.asset_id == asset_id && is_active t.status

abbrev pub OneActive : Db → Type 0
OneActive db = (asset_id : ℕ) → count_where (active_for asset_id) db.transfers ≤ 1

module _ {A : Type 0} (p : A → Bool) where
  count-none : (xs : List A) → find_one p xs ≡ none → count_where p xs ≡ 0
  count-none [] h = refl
  count-none (x ∷ xs) h = ground (arith, count-none xs)

  count-append : (xs ys : List A) → count_where p (xs ++ ys) ≡ count_where p xs + count_where p ys
  count-append [] ys = omega arith
  count-append (x ∷ xs) ys = ground (arith, count-append xs ys)

  -- An update that makes no document pass a filter does not raise its count.
  count-update_one :
      (q : A → Bool) (f : A → A) (xs : List A)
      → ((x : A) → q x ≡ true → p (f x) ≡ true → p x ≡ true)
      → count_where p (update_one q f xs) ≤ count_where p xs
  count-update_one q f [] h = omega arith
  count-update_one q f (x ∷ xs) h = ground (arith, count-update_one q f xs h, h x)

-- No asset has more active transfers than before.
abbrev Fewer : List AssetTransfer → List AssetTransfer → Type 0
Fewer xs ys = (a : ℕ) → count_where (active_for a) ys ≤ count_where (active_for a) xs

Fewer-order : IsPreorder {S = Db} λ s s'. Fewer s.transfers s'.transfers
Fewer-order = record { same = λ s a. le_refl _; then_also = λ s t u h k a. le_trans (k a) (h a) }

-- A transfer that is active now was active before, for the same asset.
active-Follows :
    (a : ℕ) (t u : AssetTransfer) → Follows t u → active_for a u ≡ true → active_for a t ≡ true
active-Follows a t u h k = ground arith

Fewer-update_one :
    (p : AssetTransfer → Bool) (f : AssetTransfer → AssetTransfer) (ts : List AssetTransfer)
    → ((t : AssetTransfer) → p t ≡ true → Follows t (f t))
    → Fewer ts (update_one p f ts)
Fewer-update_one p f ts step a =
    count-update_one (active_for a) p f ts λ t h k. active-Follows a t (f t) (step t h) k

Fewer-writes : (auth : AuthContext) → AllowsWrites (λ s s'. Fewer s.transfers s'.transfers) auth
Fewer-writes = transfer_writes Fewer Fewer-order Fewer-update_one

-- What the reads of a request have established.
pub request_check-ok :
    (auth : AuthContext) (asset_id : ℕ) (input : Input) (s s' : Db) (t : AssetTransfer)
    → request_check auth asset_id input s ≡ (ok t, s')
    → (t.asset_id ≡ asset_id)
      × (t.status ≡ pending)
      × (find_one (active_for asset_id) s.transfers ≡ none)
unfolding request_check ◌>>=◌
request_check-ok auth asset_id input s s' t h =
    let same : (check_user auth input.to_user_id s).1 ≡ s =
      (check_user-Moves Same-order auth input.to_user_id).at s in
    ground arith

-- The transfer is there whether or not the event after it could be written.
pub created :
    (auth : AuthContext) (t : AssetTransfer) (id now : ℕ) (s s' : Db)
    → s' ≡ s
    → (request_create auth t id now s').1.transfers
      ≡ s.transfers ++ record t { id = id; requested_at = now } ∷ []
unfolding request_create audit require_events create_audit_event create_transfer ◌>>=◌
created auth t id now s s' same = elim (Bool-cases s'.refuses_events) [
  | inl e ↦ rw (e, same) refl
  | inr e ↦ rw (e, same) refl
]

-- The state after a request: it threw before the creation, or it created the request.
request-cases :
    (auth : AuthContext) (asset_id : ℕ) (input : Input) (id now : ℕ) (s : Db)
    → ((request auth asset_id input id now s).1 ≡ s)
      ⊎ ((t : AssetTransfer) × (t.asset_id ≡ asset_id)
          × (find_one (active_for asset_id) s.transfers ≡ none)
          × ((request auth asset_id input id now s).1.transfers
              ≡ s.transfers ++ record t { id = id; requested_at = now } ∷ []))
unfolding request ◌>>=◌
request-cases auth asset_id input id now s =
    go (request_check auth asset_id input s) refl
      ((request_check-Moves Same-order auth asset_id input).at s)
  where
    go :
        (r : Result AssetTransfer × Db)
        → request_check auth asset_id input s ≡ r
        → r.1 ≡ s
        → ((continue (λ t. request_create auth t id now) r).1 ≡ s)
          ⊎ ((t : AssetTransfer) × (t.asset_id ≡ asset_id)
              × (find_one (active_for asset_id) s.transfers ≡ none)
              × ((continue (λ t. request_create auth t id now) r).1.transfers
                  ≡ s.transfers ++ record t { id = id; requested_at = now } ∷ []))
    go (err e, s') h same = inl same
    go (ok t, s') h same =
        let (for_asset, _, free) = request_check-ok auth asset_id input s s' t h in
        inr (t, for_asset, free, created auth t id now s s' same)

request-OneActive :
    (auth : AuthContext) (asset_id : ℕ) (input : Input) (id now : ℕ) (s : Db)
    → OneActive s
    → OneActive (request auth asset_id input id now s).1
request-OneActive auth asset_id input id now s one a =
    elim (request-cases auth asset_id input id now s) [
      | inl same ↦ rw same (one a)
      | inr (t, for_asset, free, created) ↦ rw created (
          grind (
            arith,
            one a,
            count-none (active_for asset_id) s.transfers free,
            count-append (active_for a) s.transfers (record t { id = id; requested_at = now } ∷ []),
          ))
    ]

module _ (lifecycle_error : LifecycleState → LifecycleState → Option Error) where
  serve-OneActive :
      (auth : AuthContext) (c : Call) (now : ℕ) (s : Db)
      → OneActive s
      → OneActive (serve lifecycle_error auth c now s).1
  unfolding serve
  serve-OneActive auth (ask asset_id input id) now s one a =
      request-OneActive auth asset_id input id now s one a
  serve-OneActive auth (accept id n) now s one a =
      le_trans ((approve-Moves Fewer-order auth (Fewer-writes auth) id n now).at s a) (one a)
  serve-OneActive auth (refuse id n) now s one a =
      le_trans ((reject-Moves Fewer-order auth (Fewer-writes auth) id n now).at s a) (one a)
  serve-OneActive auth (finish id n new_id) now s one a =
      le_trans
        ((complete-Moves Fewer-order auth (Fewer-writes auth) lifecycle_error id n new_id now).at s
          a)
        (one a)
  serve-OneActive auth (withdraw id n) now s one a =
      le_trans ((cancel-Moves Fewer-order auth (Fewer-writes auth) id n now).at s a) (one a)

  -- Calls that are served one after the other never give an asset two transfers that are PENDING or
  -- APPROVED, if no asset had two at the start.
  pub serve_all-OneActive :
      (calls : List (AuthContext × Call × ℕ)) (db : Db)
      → OneActive db
      → OneActive (serve_all lifecycle_error calls db)
  unfolding serve_all
  serve_all-OneActive [] db one = one
  serve_all-OneActive ((auth, c, now) ∷ calls) db one =
      serve_all-OneActive calls (serve lifecycle_error auth c now db).1
        (serve-OneActive auth c now db one)

-- The check and the creation of a request are not one step. Two requests for the same asset that
-- both pass the check before either creates its document both create one, and the asset then has
-- two active transfers.
pub requests_race :
    (auth auth' : AuthContext) (asset_id : ℕ) (input input' : Input) (t t' : AssetTransfer)
    (id id' now : ℕ) (s : Db)
    → request_check auth asset_id input s ≡ (ok t, s)
    → request_check auth' asset_id input' s ≡ (ok t', s)
    → let s1 = (request_create auth t id now s).1 in
      let s2 = (request_create auth' t' id' now s1).1 in
      count_where (active_for asset_id) s2.transfers ≡ 2
requests_race auth auth' asset_id input input' t t' id id' now s h h' =
    let (same, new, free) = request_check-ok auth asset_id input s s t h in
    let (same', new', _) = request_check-ok auth' asset_id input' s s t' h' in
    let doc = record t { id = id; requested_at = now } in
    let doc' = record t' { id = id'; requested_at = now } in
    let s1 = (request_create auth t id now s).1 in
    let first = created auth t id now s s refl in
    let second = created auth' t' id' now s1 s1 refl in
    rw (second, first)
      (ground (
        arith,
        count-none (active_for asset_id) s.transfers free,
        count-append (active_for asset_id) s.transfers (doc ∷ []),
        count-append (active_for asset_id) (s.transfers ++ doc ∷ []) (doc' ∷ []),
      ))
