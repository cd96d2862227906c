-- ===== src/Transfer/Machine.antt =====
-- The state machine of a transfer (asset-transfer.service.ts): what it is about never changes, and
-- its status only moves forward.
use asset_hub.Prelude.{ℕ, List, [], ◌∷◌, Option}
use asset_hub.Prelude.Collection.{
  Evolves, Evolves-refl, Evolves-append, Evolves-update_one, Evolves-trans,
}
use asset_hub.Prelude.Action.{Error}
use asset_hub.Prelude.Action.Moves.{IsPreorder, Moves, moves_rules, Moves-modify}
use asset_hub.Models.{Db, AssetTransfer, LifecycleState, AuditEvent}
use asset_hub.Database.{create_transfer, create_audit_event}
use asset_hub.Access.Scope.{AuthContext}
use asset_hub.Transfer.Workflow.{audit, require_events, request_create}
use asset_hub.Transfer.Progress.{Follows, Follows-refl, Follows-trans}
use asset_hub.Transfer.OnTransfers.{transfer_writes}
use asset_hub.Transfer.Frame.{
  AllowsWrites, request-Moves, approve-Moves, reject-Moves, cancel-Moves, complete-Moves,
}
use asset_hub.Transfer.Steps.{OneStep, serve-OneStep}
use asset_hub.Transfer.Calls.{Call, ask, accept, refuse, finish, withdraw, serve, serve_all}

abbrev pub Forward : Db → Db → Type 0
Forward s s' = Evolves Follows (λ _. Unit) s.transfers s'.transfers

Forward-order : IsPreorder Forward
Forward-order = record {
  same = λ s. Evolves-refl Follows (λ _. Unit) Follows-refl s.transfers;
  then_also = λ s t u.
      Evolves-trans Follows (λ _. Unit) Follows-trans (λ _ _ _ _. tt) s.transfers t.transfers
        u.transfers;
}

Forward-writes : (auth : AuthContext) → AllowsWrites Forward auth
Forward-writes auth =
    transfer_writes (Evolves Follows (λ _. Unit)) Forward-order
      (Evolves-update_one Follows (λ _. Unit) Follows-refl) auth

create_transfer-Forward : (t : AssetTransfer) → Moves Forward (create_transfer t)
unfolding create_transfer
create_transfer-Forward t =
    Moves-modify _ λ s. Evolves-append Follows (λ _. Unit) Follows-refl s.transfers _ (tt, tt)

create_audit_event-Forward : (e : AuditEvent) → Moves Forward (create_audit_event e)
unfolding create_audit_event
create_audit_event-Forward e = Moves-modify _ Forward-order.same

request_create-Forward :
    (auth : AuthContext) (t : AssetTransfer) (id now : ℕ)
    → Moves Forward (request_create auth t id now)
unfolding request_create audit require_events
request_create-Forward auth t id now =
    search (moves_rules, Forward-order, create_transfer-Forward, create_audit_event-Forward) depth
      12

module _ (lifecycle_error : LifecycleState → LifecycleState → Option Error) where
  serve-Forward :
      (auth : AuthContext) (c : Call) (now : ℕ) → Moves Forward (serve lifecycle_error auth c now)
  unfolding serve
  serve-Forward auth (ask asset_id input new_id) now =
      request-Moves Forward-order auth asset_id input new_id now
        λ t. request_create-Forward auth t new_id now
  serve-Forward auth (accept id n) now =
      approve-Moves Forward-order auth (Forward-writes auth) id n now
  serve-Forward auth (refuse id n) now =
      reject-Moves Forward-order auth (Forward-writes auth) id n now
  serve-Forward auth (finish id n new_id) now =
      complete-Moves Forward-order auth (Forward-writes auth) lifecycle_error id n new_id now
  serve-Forward auth (withdraw id n) now =
      cancel-Moves Forward-order auth (Forward-writes auth) id n now

  -- Each call, on the state that the calls before it left, makes at most its one step.
  abbrev pub Steps : List (AuthContext × Call × ℕ) → Db → Type 0
  Steps [] db = Unit
  Steps ((auth, c, now) ∷ calls) db =
      OneStep c db.transfers (serve lifecycle_error auth c now db).1.transfers
      × Steps calls (serve lifecycle_error auth c now db).1

  -- Whatever calls are served, in any order and by anyone: each call keeps every transfer in its place with its
  -- id, tenant, company, asset and destination, and keeps its status, or takes the one transfer that the
  -- call names along one edge: an approval PENDING to APPROVED, a rejection PENDING to REJECTED, a
  -- completion APPROVED to COMPLETED, a cancellation PENDING or APPROVED to CANCELLED. What a request adds
  -- at the end is PENDING and for its asset, and no other call adds any. Over
  -- all calls, no transfer ever leaves COMPLETED, REJECTED or CANCELLED, or goes back to PENDING.
  pub serve_all_forward :
      (calls : List (AuthContext × Call × ℕ)) (db : Db)
      → Steps calls db
        × Evolves Follows (λ _. Unit) db.transfers (serve_all lifecycle_error calls db).transfers
  unfolding serve_all
  serve_all_forward [] db = (tt, Forward-order.same db)
  serve_all_forward ((auth, c, now) ∷ calls) db =
      let db' = (serve lifecycle_error auth c now db).1 in
      let rest = serve_all_forward calls db' in
      (
        (serve-OneStep lifecycle_error auth c now db, rest.0),
        Forward-order.then_also db db' (serve_all lifecycle_error calls db')
            ((serve-Forward auth c now).at db) rest.1,
      )
