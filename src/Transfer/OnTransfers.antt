-- ===== src/Transfer/OnTransfers.antt =====
-- Relations of states that look at the transfers alone, and that every forward change of a transfer
-- respects: they allow every write of the transfer service (asset-transfer.service.ts) but the
-- creation of a request.
use asset_hub.Prelude.{ℕ, Option, none, some, Bool, true, List, ◌≡◌, refl, arith, String}
use asset_hub.Prelude.Collection.{update_one}
use asset_hub.Prelude.Text.{Text}
use asset_hub.Prelude.Action.{Error}
use asset_hub.Prelude.Action.Moves.{IsPreorder, Moves, moves_rules, Moves-modify}
use asset_hub.Models.{
  Db, Object, Asset, AssetAssignment, AssetAuditEvent, AuditEvent, AssetTransfer, TransferStatus,
  LifecycleState,
}
use asset_hub.Database.{
  update_asset, update_assignment, create_assignment, create_asset_audit_event, create_audit_event,
  update_transfer,
}
use asset_hub.Access.Scope.{AuthContext}
use asset_hub.Transfer.Workflow.{is_pending, is_approved, is_active, require_events, audit}
use asset_hub.Transfer.Decisions.{
  in_status, change_transfer, approve_write, reject_write, cancel_write,
}
use asset_hub.Transfer.Completion.{
  touch_asset, close_assignment, close_found, move_asset, open_assignment, complete_fields,
  lifecycle_event,
}
use asset_hub.Transfer.Frame.{AllowsWrites, AllowsCarry}
use asset_hub.Transfer.Progress.{Follows}

module _ (Step : AssetTransfer → AssetTransfer → Type 0)
    (Q : List AssetTransfer → List AssetTransfer → Type 0)
    (order : IsPreorder {S = Db} λ s s'. Q s.transfers s'.transfers)
    (update : (p : AssetTransfer → Bool) (f : AssetTransfer → AssetTransfer)
        (ts : List AssetTransfer)
      → ((t : AssetTransfer) → p t ≡ true → Step t (f t))
      → Q ts (update_one p f ts)) where
  abbrev OnTransfers : Db → Db → Type 0
  OnTransfers s s' = Q s.transfers s'.transfers

  update_asset-OnTransfers :
      (p : Asset → Bool) (f : Asset → Asset) → Moves OnTransfers (update_asset p f)
  unfolding update_asset
  update_asset-OnTransfers p f = Moves-modify _ order.same

  update_assignment-OnTransfers :
      (p : AssetAssignment → Bool) (f : AssetAssignment → AssetAssignment)
      → Moves OnTransfers (update_assignment p f)
  unfolding update_assignment
  update_assignment-OnTransfers p f = Moves-modify _ order.same

  create_assignment-OnTransfers : (a : AssetAssignment) → Moves OnTransfers (create_assignment a)
  unfolding create_assignment
  create_assignment-OnTransfers a = Moves-modify _ order.same

  create_asset_audit_event-OnTransfers :
      (e : AssetAuditEvent) → Moves OnTransfers (create_asset_audit_event e)
  unfolding create_asset_audit_event
  create_asset_audit_event-OnTransfers e = Moves-modify _ order.same

  create_audit_event-OnTransfers : (e : AuditEvent) → Moves OnTransfers (create_audit_event e)
  unfolding create_audit_event
  create_audit_event-OnTransfers e = Moves-modify _ order.same

  update_transfer-OnTransfers :
      (p : AssetTransfer → Bool) (f : AssetTransfer → AssetTransfer)
      → ((t : AssetTransfer) → p t ≡ true → Step t (f t))
      → Moves OnTransfers (update_transfer p f)
  unfolding update_transfer
  update_transfer-OnTransfers p f step = Moves-modify _ λ s. update p f s.transfers step

  -- Every write but that of a transfer's status goes forward; the status is left to the caller.
  ruleset transfers_rules = (
    moves_rules, update_asset-OnTransfers, update_assignment-OnTransfers,
    create_assignment-OnTransfers, create_asset_audit_event-OnTransfers,
    create_audit_event-OnTransfers,
  )

  audit-OnTransfers :
      (auth : AuthContext) (a : String) (id : ℕ) (m : Object) (now : ℕ)
      → Moves OnTransfers (audit auth a id m now)
  unfolding audit require_events
  audit-OnTransfers auth a id m now = search (transfers_rules, order) depth 8

  -- A compare-and-set whose change goes forward from every status that it tests for.
  module _ (auth : AuthContext) (id : ℕ) (from : TransferStatus → Bool)
      (f : AssetTransfer → AssetTransfer)
      (step : (t : AssetTransfer) → from t.status ≡ true → Step t (f t)) where
    write-OnTransfers : Moves OnTransfers (update_transfer (in_status auth id from) f)
    write-OnTransfers = update_transfer-OnTransfers _ f λ t h. step t (ground arith)

    pub change_transfer-OnTransfers :
        (e : Error) → Moves OnTransfers (change_transfer auth id from f e)
    unfolding change_transfer
    change_transfer-OnTransfers e = search (transfers_rules, order, write-OnTransfers) depth 8

  touch_asset-OnTransfers :
      (auth : AuthContext) (id now : ℕ) → Moves OnTransfers (touch_asset auth id now)
  unfolding touch_asset
  touch_asset-OnTransfers auth id now = search (transfers_rules, order) depth 7

  close_assignment-OnTransfers : (id t now : ℕ) → Moves OnTransfers (close_assignment id t now)
  unfolding close_assignment
  close_assignment-OnTransfers id t now = search (transfers_rules, order, found)
    where
      found : (e : Option AssetAssignment) → Moves OnTransfers (close_found e t now)
      found none = unfold close_found in search (transfers_rules, order)
      found (some e) = unfold close_found in search transfers_rules

  open_assignment-OnTransfers :
      (id : ℕ) (u : Option ℕ) (t new_id now : ℕ)
      → Moves OnTransfers (open_assignment id u t new_id now)
  unfolding open_assignment
  open_assignment-OnTransfers id none t new_id now = search (transfers_rules, order)
  open_assignment-OnTransfers id (some u) t new_id now = search (transfers_rules, order) depth 7

  move_asset-OnTransfers :
      (auth : AuthContext) (t : AssetTransfer) (from to : LifecycleState) (now : ℕ)
      → Moves OnTransfers (move_asset auth t from to now)
  unfolding move_asset
  move_asset-OnTransfers auth t from to now = search (transfers_rules, order) depth 7

  lifecycle_event-OnTransfers :
      (auth : AuthContext) (t : AssetTransfer) (id : ℕ) (from to : LifecycleState) (now : ℕ)
      → Moves OnTransfers (lifecycle_event auth t id from to now)
  unfolding lifecycle_event require_events
  lifecycle_event-OnTransfers auth t id from to now = search (transfers_rules, order) depth 9

  pub transfer_carry : (auth : AuthContext) → AllowsCarry OnTransfers auth
  transfer_carry auth = record {
    touch = touch_asset-OnTransfers auth;
    move = move_asset-OnTransfers auth;
    close = close_assignment-OnTransfers;
    reopen = open_assignment-OnTransfers;
    trail = audit-OnTransfers auth;
    lifecycle = lifecycle_event-OnTransfers auth;
  }

-- Every change of status goes forward.
module _ (Q : List AssetTransfer → List AssetTransfer → Type 0)
    (order : IsPreorder {S = Db} λ s s'. Q s.transfers s'.transfers)
    (update : (p : AssetTransfer → Bool) (f : AssetTransfer → AssetTransfer)
        (ts : List AssetTransfer)
      → ((t : AssetTransfer) → p t ≡ true → Follows t (f t))
      → Q ts (update_one p f ts)) where
  approve_write-OnTransfers :
      (auth : AuthContext) (id : ℕ) (remark : Option Text) (now : ℕ)
      → Moves (λ s s'. Q s.transfers s'.transfers) (approve_write auth id remark now)
  unfolding approve_write
  approve_write-OnTransfers auth id remark now =
      change_transfer-OnTransfers Follows Q order update auth id is_pending _
        (λ t h. (refl, ground arith)) _

  reject_write-OnTransfers :
      (auth : AuthContext) (id : ℕ) (remark : Option Text) (now : ℕ)
      → Moves (λ s s'. Q s.transfers s'.transfers) (reject_write auth id remark now)
  unfolding reject_write
  reject_write-OnTransfers auth id remark now =
      change_transfer-OnTransfers Follows Q order update auth id is_pending _
        (λ t h. (refl, ground arith)) _

  cancel_write-OnTransfers :
      (auth : AuthContext) (id : ℕ) (remark : Option Text) (now : ℕ)
      → Moves (λ s s'. Q s.transfers s'.transfers) (cancel_write auth id remark now)
  unfolding cancel_write
  cancel_write-OnTransfers auth id remark now =
      change_transfer-OnTransfers Follows Q order update auth id is_active _
        (λ t h. (refl, ground arith)) _

  complete_write-OnTransfers :
      (auth : AuthContext) (id : ℕ) (remark : Option Text) (now : ℕ) (e : Error)
      → Moves
          (λ s s'. Q s.transfers s'.transfers)
          (change_transfer auth id is_approved (complete_fields auth remark now) e)
  complete_write-OnTransfers auth id remark now e =
      change_transfer-OnTransfers Follows Q order update auth id is_approved _
        (λ t h. (refl, ground arith)) e

  pub transfer_writes :
      (auth : AuthContext) → AllowsWrites (λ s s'. Q s.transfers s'.transfers) auth
  transfer_writes auth = record {
    approval = approve_write-OnTransfers auth;
    rejection = reject_write-OnTransfers auth;
    cancellation = cancel_write-OnTransfers auth;
    completion = complete_write-OnTransfers auth;
    carry = transfer_carry Follows Q order update auth;
  }
