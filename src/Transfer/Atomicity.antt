-- ===== src/Transfer/Atomicity.antt =====
-- What a call of the transfer service that throws has changed (asset-transfer.service.ts).
use asset_hub.Prelude.{ℕ, ◌≡◌, ◌≢◌, Option, arith, String, Bool, Bool-cases, inl, inr}
use asset_hub.Prelude.Text.{Text}
use asset_hub.Prelude.Action.{Error, err, pure, ◌>>=◌}
use asset_hub.Prelude.Action.Moves.{Moves, moves_rules}
use asset_hub.Prelude.Action.Atomic.{
  Same, Same-order, Atomic, AtomicBut, ThrowsLate, AtomicBut-of_Atomic, AtomicBut-of_Late,
  Atomic-atomically, AtomicBut-bind_read, AtomicBut-bind_throw,
}
use asset_hub.Models.{Db, Object, AssetTransfer, TransferStatus, LifecycleState}
use asset_hub.Database.{
  update_transfer, create_audit_event, create_transfer, create_asset_audit_event,
}
use asset_hub.Access.Scope.{AuthContext}
use asset_hub.Transfer.Workflow.{
  audit, event_refused, require_events, require_transfer, request, request_create, Input,
}
use asset_hub.Transfer.Decisions.{
  change_transfer, approve, approve_write, reject, reject_write, cancel, cancel_write,
}
use asset_hub.Transfer.Completion.{complete, lifecycle_event, same_state}
use asset_hub.Transfer.Frame.{request_check-Moves}
use asset_hub.Transfer.Calls.{Call, ask, accept, refuse, finish, withdraw, serve}

-- The error of an event that could not be written, after the write that it reports.
abbrev Late : Error → Type 0
Late e = e ≡ event_refused

require_transfer-Same : (auth : AuthContext) (id : ℕ) → Moves Same (require_transfer auth id)
unfolding require_transfer
require_transfer-Same auth id = search (moves_rules, Same-order)

change_transfer-Atomic :
    (auth : AuthContext) (id : ℕ) (from : TransferStatus → Bool) (f : AssetTransfer → AssetTransfer)
    (e : Error)
    → Atomic (change_transfer auth id from f e)
unfolding change_transfer ◌>>=◌ update_transfer
change_transfer-Atomic auth id from f e = record { at = λ s e' h. ground arith }

audit_rest-Late :
    (auth : AuthContext) (a : String) (id : ℕ) (m : Object) (now : ℕ) (t : AssetTransfer)
    → ThrowsLate Late (audit auth a id m now >>= λ _. pure t)
unfolding audit require_events ◌>>=◌ create_audit_event
audit_rest-Late auth a id m now t = record {
  at = λ s e h. elim (Bool-cases s.refuses_events) [ inl p ↦ ground arith | inr p ↦ ground arith ];
}

complete_rest-Late :
    (auth : AuthContext) (a : String) (id : ℕ) (m : Object) (now : ℕ) (t u : AssetTransfer)
    (from to : LifecycleState)
    → ThrowsLate Late
        (audit auth a id m now >>= λ _. lifecycle_event auth t id from to now >>= λ _. pure u)
unfolding audit require_events ◌>>=◌ create_audit_event lifecycle_event create_asset_audit_event
complete_rest-Late auth a id m now t u from to = record {
  at = λ s e h. elim (Bool-cases s.refuses_events) [
    | inl q ↦ ground arith
    | inr q ↦ elim (Bool-cases (same_state from to)) [ inl p ↦ ground arith | inr p ↦ ground arith ]
  ];
}

request_create-Late :
    (auth : AuthContext) (t : AssetTransfer) (id now : ℕ)
    → ThrowsLate Late (request_create auth t id now)
unfolding request_create audit require_events ◌>>=◌ create_audit_event create_transfer
request_create-Late auth t id now = record {
  at = λ s e h. elim (Bool-cases s.refuses_events) [ inl p ↦ ground arith | inr p ↦ ground arith ];
}

ruleset atomic_rules = (
  moves_rules, Same-order, AtomicBut-of_Atomic, Atomic-atomically, AtomicBut-bind_read,
  AtomicBut-bind_throw, require_transfer-Same,
)

approve-Atomic :
    (auth : AuthContext) (id : ℕ) (n : Option Text) (now : ℕ)
    → AtomicBut Late (approve auth id n now)
unfolding approve approve_write
approve-Atomic auth id n now =
    search (atomic_rules, change_transfer-Atomic, audit_rest-Late) depth 9

reject-Atomic :
    (auth : AuthContext) (id : ℕ) (n : Option Text) (now : ℕ)
    → AtomicBut Late (reject auth id n now)
unfolding reject reject_write
reject-Atomic auth id n now = search (atomic_rules, change_transfer-Atomic, audit_rest-Late) depth 9

cancel-Atomic :
    (auth : AuthContext) (id : ℕ) (n : Option Text) (now : ℕ)
    → AtomicBut Late (cancel auth id n now)
unfolding cancel cancel_write
cancel-Atomic auth id n now = search (atomic_rules, change_transfer-Atomic, audit_rest-Late) depth 9

request-Atomic :
    (auth : AuthContext) (asset_id : ℕ) (input : Input) (id now : ℕ)
    → AtomicBut Late (request auth asset_id input id now)
unfolding request
request-Atomic auth asset_id input id now =
    AtomicBut-bind_read Late _ _ (request_check-Moves Same-order auth asset_id input)
      λ t. AtomicBut-of_Late Late _ (request_create-Late auth t id now)

module _ (lifecycle_error : LifecycleState → LifecycleState → Option Error) where
  complete-Atomic :
      (auth : AuthContext) (id : ℕ) (n : Option Text) (new_id now : ℕ)
      → AtomicBut Late (complete lifecycle_error auth id n new_id now)
  unfolding complete
  complete-Atomic auth id n new_id now = search (atomic_rules, complete_rest-Late) depth 9

  serve-Atomic :
      (auth : AuthContext) (c : Call) (now : ℕ) → AtomicBut Late (serve lifecycle_error auth c now)
  unfolding serve
  serve-Atomic auth (ask asset_id input id) now = request-Atomic auth asset_id input id now
  serve-Atomic auth (accept id n) now = approve-Atomic auth id n now
  serve-Atomic auth (refuse id n) now = reject-Atomic auth id n now
  serve-Atomic auth (finish id n new_id) now = complete-Atomic auth id n new_id now
  serve-Atomic auth (withdraw id n) now = cancel-Atomic auth id n now

  -- A call that throws leaves the whole database as it was: no transfer, asset, assignment, audit event or any
  -- other document is created or changed by a call that is answered with an error. The one exception is
  -- the error of an event that the database refuses to write, which is after the writes of the call.
  pub serve_all_or_nothing :
      (auth : AuthContext) (c : Call) (now : ℕ) (db : Db) (e : Error)
      → (serve lifecycle_error auth c now db).0 ≡ err e
      → e ≢ event_refused
      → (serve lifecycle_error auth c now db).1 ≡ db
  serve_all_or_nothing auth c now db e h early = elim ((serve-Atomic auth c now).at db e h) [
    | inl late ↦ absurd (early late)
    | inr same ↦ same
  ]
