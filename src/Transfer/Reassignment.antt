-- ===== src/Transfer/Reassignment.antt =====
-- How a completion ends the assignment of an asset and begins the next (asset-transfer.service.ts,
-- `complete`).
use asset_hub.Prelude.{
  ℕ, ◌≡◌, ◌≢◌, ◌≤◌, refl, ap, Option, none, some, Bool, ◌&&◌, List, [], ◌∷◌, ◌++◌, ◌==◌, arith,
  Option-cases, Bool-cases, inl, inr,
}
use asset_hub.Prelude.Collection.{
  find_one, update_one, count_where, Distinct, All-find_one, find_one-append_new,
}
use asset_hub.Prelude.Action.{ok, ◌>>=◌}
use asset_hub.Models.{Db, AssetAssignment}
use asset_hub.Database.{update_assignment, create_assignment}
use asset_hub.Transfer.Workflow.{is_open, current_user_id}
use asset_hub.Transfer.Completion.{close_assignment, close_found, open_assignment}

abbrev pub open_for : ℕ → AssetAssignment → Bool
open_for asset_id a = a.asset_id == asset_id && is_open a

nothing_open :
    (p : AssetAssignment → Bool) (xs : List AssetAssignment)
    → count_where p xs ≤ 0
    → find_one p xs ≡ none
nothing_open p [] h = refl
nothing_open p (x ∷ xs) h = ground (arith, nothing_open p xs)

-- Where only one assignment of the asset is open, closing it leaves none open.
closed_only :
    (asset_id transfer_id now : ℕ) (xs : List AssetAssignment) (e : AssetAssignment)
    → Distinct (λ a. a.id) xs
    → count_where (open_for asset_id) xs ≤ 1
    → find_one (open_for asset_id) xs ≡ some e
    → find_one (open_for asset_id) (
        update_one
          (λ a. a.id == e.id && is_open a)
          (λ a. record a { returned_at = some now; via_transfer = some transfer_id })
          xs)
      ≡ none
closed_only asset_id transfer_id now [] e d c h = refl
closed_only asset_id transfer_id now (x ∷ xs) e d c h = elim (Bool-cases (open_for asset_id x)) [
  | inl t ↦
      let same : x ≡ e = ground arith in
      let rest = nothing_open (open_for asset_id) xs in ground (arith, rest)
  | inr f ↦
      let later : find_one (open_for asset_id) xs ≡ some e = ground arith in
      let other : e.id ≢ x.id =
        All-find_one (λ z. z.id ≢ x.id) (open_for asset_id) xs e d.0 later in
      ground (arith, closed_only asset_id transfer_id now xs e d.1)
]

pub close_assignment-ok :
    (asset_id transfer_id now : ℕ) (s s' : Db)
    → Distinct (λ a. a.id) s.assignments
    → count_where (open_for asset_id) s.assignments ≤ 1
    → close_assignment asset_id transfer_id now s ≡ (ok tt, s')
    → (find_one (open_for asset_id) s'.assignments ≡ none) × (s'.assets ≡ s.assets)
unfolding close_assignment close_found update_assignment ◌>>=◌
close_assignment-ok asset_id transfer_id now s s' d c h =
    elim (Option-cases (find_one (open_for asset_id) s.assignments)) [
      | inl e ↦ let same : s' ≡ s = ground arith in (rw same e, ap (λ z. z.assets) same)
      | inr (e, found) ↦
          let after = closed_only asset_id transfer_id now s.assignments e d c found in
          let assignments : s'.assignments
              ≡ update_one (λ a. a.id == e.id && is_open a)
                  (λ a. record a { returned_at = some now; via_transfer = some transfer_id })
                  s.assignments =
            ground arith in
          (rw assignments after, ground arith)
    ]

holder_of :
    (asset_id : ℕ) (found : Option AssetAssignment) (s : Db)
    → find_one (open_for asset_id) s.assignments ≡ found
    → current_user_id asset_id s ≡ elim found [ none ↦ none | some a ↦ a.user_id ]
holder_of asset_id found s h = ap (λ o. elim o [ none ↦ none | some a ↦ a.user_id ]) h

pub open_assignment-ok :
    (asset_id : ℕ) (user : Option ℕ) (transfer_id new_id now : ℕ) (s s' : Db)
    → find_one (open_for asset_id) s.assignments ≡ none
    → open_assignment asset_id user transfer_id new_id now s ≡ (ok tt, s')
    → (current_user_id asset_id s' ≡ user) × (s'.assets ≡ s.assets)
unfolding open_assignment create_assignment ◌>>=◌
open_assignment-ok asset_id none transfer_id new_id now s s' free h =
    let same : s' ≡ s = ground arith in
    (rw same (holder_of asset_id none s free), ap (λ z. z.assets) same)
open_assignment-ok asset_id (some user) transfer_id new_id now s s' free h =
    let new : AssetAssignment = record {
      id = new_id;
      asset_id = asset_id;
      user_id = some user;
      assigned_at = now;
      returned_at = none;
      via_transfer = some transfer_id;
    } in
    let after = find_one-append_new (open_for asset_id) s.assignments new free (ground arith) in
    let assignments : s'.assignments ≡ s.assignments ++ new ∷ [] = ground arith in
    (holder_of asset_id (some new) s' (rw assignments after), ground arith)
