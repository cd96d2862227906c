-- ===== src/Transfer/Steps.antt =====
-- What each call may do to a transfer (asset-transfer.service.ts): one step of the state machine.
use asset_hub.Prelude.{ℕ, ◌≡◌, ◌∙◌, refl, ◌⊎◌, inl, inr, Option, Bool, true, List, arith}
use asset_hub.Prelude.Collection.{
  Evolves, Evolves-refl, Evolves-append, Evolves-update_one, Evolves-trans, update_one,
}
use asset_hub.Prelude.Action.{Error, Result, ok, err, ◌>>=◌, continue}
use asset_hub.Prelude.Action.Atomic.{Same-order}
use asset_hub.Prelude.Action.Moves.{IsPreorder, Moves, moves_rules, Moves-modify}
use asset_hub.Database.{update_transfer}
use asset_hub.Models.{
  Db, AssetTransfer, TransferStatus, pending, approved, completed, rejected, cancelled,
  LifecycleState,
}
use asset_hub.Access.Scope.{AuthContext}
use asset_hub.Transfer.Workflow.{
  Input, is_pending, is_approved, is_active, request, request_check, request_create,
}
use asset_hub.Transfer.Decisions.{
  approve_write, reject_write, cancel_write, change_transfer, in_status,
}
use asset_hub.Transfer.Progress.{terms}
use asset_hub.Transfer.OnTransfers.{transfer_carry}
use asset_hub.Transfer.Frame.{
  AllowsCarry, request_check-Moves, approve_by-Moves, reject_by-Moves, cancel_by-Moves,
  complete_by-Moves,
}
use asset_hub.Transfer.Active.{request_check-ok, created}
use asset_hub.Transfer.Calls.{Call, ask, accept, refuse, finish, withdraw, serve}

-- The transfer that a call names, in a status from which the call may take it.
abbrev pub From : Call → AssetTransfer → Type 0
From (ask asset_id input new_id) t = ⊥
From (accept id n) t = (t.id ≡ id) × (t.status ≡ pending)
From (refuse id n) t = (t.id ≡ id) × (t.status ≡ pending)
From (finish id n new_id) t = (t.id ≡ id) × (t.status ≡ approved)
From (withdraw id n) t = (t.id ≡ id) × ((t.status ≡ pending) ⊎ (t.status ≡ approved))

-- The status to which a call takes it.
abbrev pub target : Call → TransferStatus
target (ask asset_id input new_id) = pending
target (accept id n) = approved
target (refuse id n) = rejected
target (finish id n new_id) = completed
target (withdraw id n) = cancelled

-- A call keeps what a transfer is about, and its status, or takes it the one step of the call.
abbrev pub Stepped : Call → AssetTransfer → AssetTransfer → Type 0
Stepped c t u = (terms u ≡ terms t) × ((u.status ≡ t.status) ⊎ (From c t × (u.status ≡ target c)))

-- A request creates transfers that are pending, with its id and for its asset, and no other call creates any.
abbrev pub Requested : Call → AssetTransfer → Type 0
Requested (ask asset_id input new_id) u =
    (u.id ≡ new_id) × (u.asset_id ≡ asset_id) × (u.status ≡ pending)
Requested _ u = ⊥

Stepped-refl : (c : Call) (t : AssetTransfer) → Stepped c t t
Stepped-refl c t = (refl, inl refl)

From-earlier :
    (c : Call) (t u : AssetTransfer) → terms u ≡ terms t → u.status ≡ t.status → From c u → From c t
From-earlier (ask asset_id input new_id) t u e s f = f
From-earlier (accept id n) t u e s f = ground arith
From-earlier (refuse id n) t u e s f = ground arith
From-earlier (finish id n new_id) t u e s f = ground arith
From-earlier (withdraw id n) t u e s f = ground arith

Stepped-trans : (c : Call) (t u v : AssetTransfer) → Stepped c t u → Stepped c u v → Stepped c t v
Stepped-trans c t u v (e, inl s) (f, inl r) = (f ∙ e, inl (r ∙ s))
Stepped-trans c t u v (e, inl s) (f, inr (from, r)) = (f ∙ e, inr (From-earlier c t u e s from, r))
Stepped-trans c t u v (e, inr (from, s)) (f, inl r) = (f ∙ e, inr (from, r ∙ s))
Stepped-trans c t u v (e, inr (from, s)) (f, inr (_, r)) = (f ∙ e, inr (from, r))

Requested-later : (c : Call) (t u : AssetTransfer) → Requested c t → Stepped c t u → Requested c u
Requested-later (ask asset_id input new_id) t u new (e, inl s) = ground arith
Requested-later (ask asset_id input new_id) t u new (e, inr (from, s)) = absurd from
Requested-later (accept id n) t u new k = new
Requested-later (refuse id n) t u new k = new
Requested-later (finish id n new_id) t u new k = new
Requested-later (withdraw id n) t u new k = new

abbrev pub OneStep : Call → List AssetTransfer → List AssetTransfer → Type 0
OneStep c = Evolves (Stepped c) (Requested c)

module _ (c : Call) where
  OneStep-order : IsPreorder {S = Db} (λ s s'. OneStep c s.transfers s'.transfers)
  OneStep-order = record {
    same = λ s. Evolves-refl _ _ (Stepped-refl c) s.transfers;
    then_also = λ s t u.
        Evolves-trans _ _ (Stepped-trans c) (Requested-later c) s.transfers t.transfers u.transfers;
  }

  OneStep-update :
      (p : AssetTransfer → Bool) (f : AssetTransfer → AssetTransfer) (ts : List AssetTransfer)
      → ((t : AssetTransfer) → p t ≡ true → Stepped c t (f t))
      → OneStep c ts (update_one p f ts)
  OneStep-update = Evolves-update_one _ _ (Stepped-refl c)

carried :
    (c : Call) (auth : AuthContext) → AllowsCarry (λ s s'. OneStep c s.transfers s'.transfers) auth
carried c = transfer_carry (Stepped c) (OneStep c) (OneStep-order c) (OneStep-update c)

module _ (c : Call) (auth : AuthContext) where
  -- A compare-and-set whose change is the step of the call.
  change-OneStep :
      (id : ℕ) (from : TransferStatus → Bool) (f : AssetTransfer → AssetTransfer) (e : Error)
      → ((t : AssetTransfer) → t.id ≡ id → from t.status ≡ true → Stepped c t (f t))
      → Moves (λ s s'. OneStep c s.transfers s'.transfers) (change_transfer auth id from f e)
  unfolding change_transfer
  change-OneStep id from f e step = search (moves_rules, OneStep-order c, writes) depth 8
    where
      writes :
          (e' : Error)
          → Moves
              (λ s s'. OneStep c s.transfers s'.transfers)
              (update_transfer (in_status auth id from) f)
      writes e' =
          unfold update_transfer in
          Moves-modify _ λ s.
            OneStep-update c (in_status auth id from) f s.transfers
              λ t h. step t (ground arith) (ground arith)

request-OneStep :
    (auth : AuthContext) (asset_id : ℕ) (input : Input) (id now : ℕ) (s : Db)
    → OneStep (ask asset_id input id) s.transfers (request auth asset_id input id now s).1.transfers
unfolding request ◌>>=◌
request-OneStep auth asset_id input id now s =
    go (request_check auth asset_id input s) refl
      ((request_check-Moves Same-order auth asset_id input).at s)
  where
    go :
        (r : Result AssetTransfer × Db)
        → request_check auth asset_id input s ≡ r
        → r.1 ≡ s
        → OneStep
            (ask asset_id input id)
            s.transfers
            (continue (λ t. request_create auth t id now) r).1.transfers
    go (err e, s') h same =
        rw same (Evolves-refl _ _ (Stepped-refl (ask asset_id input id)) s.transfers)
    go (ok t, s') h same =
        let (for_asset, new, _) = request_check-ok auth asset_id input s s' t h in
        rw (created auth t id now s s' same) (
          Evolves-append _ _ (Stepped-refl (ask asset_id input id)) s.transfers _
            ((refl, for_asset, new), tt))

active : (s : TransferStatus) → is_active s ≡ true → (s ≡ pending) ⊎ (s ≡ approved)
active pending h = inl refl
active approved h = inr refl
active completed h = absurd (ground arith)
active rejected h = absurd (ground arith)
active cancelled h = absurd (ground arith)

module _ (lifecycle_error : LifecycleState → LifecycleState → Option Error) where
  pub serve-OneStep :
      (auth : AuthContext) (c : Call) (now : ℕ) (db : Db)
      → OneStep c db.transfers (serve lifecycle_error auth c now db).1.transfers
  unfolding serve
  serve-OneStep auth (ask asset_id input id) now db = request-OneStep auth asset_id input id now db
  serve-OneStep auth (accept id n) now db =
      let c = accept id n in
      (approve_by-Moves (OneStep-order c) auth (carried c auth) id n now λ at. write at).at db
    where
      write :
          (at : ℕ)
          → Moves
              (λ s s'. OneStep (accept id n) s.transfers s'.transfers)
              (approve_write auth id n at)
      write at =
          unfold approve_write in
          change-OneStep (accept id n) auth id is_pending _ _
            λ t e h. (refl, inr ((e, ground arith), refl))
  serve-OneStep auth (refuse id n) now db =
      let c = refuse id n in
      (reject_by-Moves (OneStep-order c) auth (carried c auth) id n now λ at. write at).at db
    where
      write :
          (at : ℕ)
          → Moves
              (λ s s'. OneStep (refuse id n) s.transfers s'.transfers)
              (reject_write auth id n at)
      write at =
          unfold reject_write in
          change-OneStep (refuse id n) auth id is_pending _ _
            λ t e h. (refl, inr ((e, ground arith), refl))
  serve-OneStep auth (finish id n new_id) now db =
      let c = finish id n new_id in
      (complete_by-Moves (OneStep-order c) auth (carried c auth) lifecycle_error id n new_id now
          λ e.
            change-OneStep c auth id is_approved _ e
              λ t k h. (refl, inr ((k, ground arith), refl))).at
        db
  serve-OneStep auth (withdraw id n) now db =
      let c = withdraw id n in
      (cancel_by-Moves (OneStep-order c) auth (carried c auth) id n now λ at. write at).at db
    where
      write :
          (at : ℕ)
          → Moves
              (λ s s'. OneStep (withdraw id n) s.transfers s'.transfers)
              (cancel_write auth id n at)
      write at =
          unfold cancel_write in
          change-OneStep (withdraw id n) auth id is_active _ _
            λ t e h. (refl, inr ((e, active t.status h), refl))
