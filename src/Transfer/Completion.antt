-- ===== src/Transfer/Completion.antt =====
-- Completion (asset-transfer.service.ts, `complete`): one transaction closes the open assignment,
-- moves the asset, opens the new assignment and completes the transfer. The lifecycle rules,
-- `assertLifecycleTransition` of assets/asset-lifecycle.ts, are not in the repository: they are a
-- parameter, the error that a transition throws, if it throws one.
use asset_hub.Prelude.{
  ℕ, ⊤, Option, none, some, Bool, not, ◌&&◌, ◌==◌, [], ◌∷◌, given, or_else, if◌then◌else◌,
}
use asset_hub.Prelude.Collection.{find_one}
use asset_hub.Prelude.Text.{Text, codes, trimmed}
use asset_hub.Prelude.Action.{
  Action, Error, pure, or_raise, raise_given, raise_if, gets, atomically, ◌>>=◌, ◌>>◌, forbidden,
  not_found, conflict,
}
use asset_hub.Models.{
  Db, Asset, AssetAssignment, AssetTransfer, completed, Value, LifecycleState, requested, in_stock,
  assigned, in_repair, lost_stolen, retired, disposed,
}
use asset_hub.Database.{
  update_asset, update_assignment, create_assignment, create_asset_audit_event,
}
use asset_hub.Access.Scope.{AuthContext, scope, passes}
use asset_hub.Transfer.Destination.{validate_destination}
use asset_hub.Transfer.Workflow.{
  is_approved, is_open, require_events, audit, id_value, require_transfer,
}
use asset_hub.Transfer.Decisions.{change_transfer}

abbrev pub state_code : LifecycleState → ℕ
state_code requested = 0
state_code in_stock = 1
state_code assigned = 2
state_code in_repair = 3
state_code lost_stolen = 4
state_code retired = 5
state_code disposed = 6

abbrev pub same_state : LifecycleState → LifecycleState → Bool
same_state a b = state_code a == state_code b

abbrev state_value : LifecycleState → Value
state_value s = Value.num (state_code s)

-- The destination user, looked up again inside the transaction.
unfoldable pub recheck_user : AuthContext → Option ℕ → Action Db ⊤
recheck_user auth none = pure tt
recheck_user auth (some user_id) = do
  user ←
      or_raise
        (← gets (λ db.
          find_one (λ u. u.id == user_id && passes (scope auth) u.tenant_id u.company_id) db.users))
        (forbidden "Destination user is no longer valid")
  raise_if (not user.is_active) (forbidden "Destination user is no longer valid")

-- The write that ends the open assignment that was found.
unfoldable pub close_found : Option AssetAssignment → ℕ → ℕ → Action Db ⊤
close_found none transfer_id now = pure tt
close_found (some e) transfer_id now =
    update_assignment (λ a. a.id == e.id && is_open a)
      (λ a. record a { returned_at = some now; via_transfer = some transfer_id })

-- The open assignment of the asset, if there is one, ends now.
unfoldable pub close_assignment : ℕ → ℕ → ℕ → Action Db ⊤
close_assignment asset_id transfer_id now = do
  existing ← gets (λ db. find_one (λ a. a.asset_id == asset_id && is_open a) db.assignments)
  close_found existing transfer_id now

-- `assetAssignment.create`; the unique index on the open assignment of an asset refuses a second.
unfoldable pub open_assignment : ℕ → Option ℕ → ℕ → ℕ → ℕ → Action Db ⊤
open_assignment asset_id none transfer_id new_id now = pure tt
open_assignment asset_id (some user_id) transfer_id new_id now = do
  existing ← gets (λ db. find_one (λ a. a.asset_id == asset_id && is_open a) db.assignments)
  raise_if (given existing) (conflict "Asset is already assigned; transfer cannot be completed")
  create_assignment (record {
    id = new_id;
    asset_id = asset_id;
    user_id = some user_id;
    assigned_at = now;
    returned_at = none;
    via_transfer = some transfer_id;
  })

abbrev pub in_scope : AuthContext → ℕ → Asset → Bool
in_scope auth asset_id a = a.id == asset_id && passes (scope auth) a.tenant_id a.company_id

abbrev pub in_state : AuthContext → ℕ → LifecycleState → Asset → Bool
in_state auth asset_id from a = in_scope auth asset_id a && same_state a.status from

abbrev pub moved : AssetTransfer → LifecycleState → ℕ → Asset → Asset
moved transfer to now a = record a {
  location_id = or_else transfer.to_location_id a.location_id;
  department_id = or_else transfer.to_department_id a.department_id;
  status = to;
  updated_at = now;
}

-- The second update of the asset, on the status that the first one read.
unfoldable pub move_asset :
    AuthContext → AssetTransfer → LifecycleState → LifecycleState → ℕ → Action Db ⊤
move_asset auth transfer from to now = do
  found ←
      or_raise (← gets (λ db. find_one (in_state auth transfer.asset_id from) db.assets))
        (conflict "Asset changed before transfer completion")
  update_asset (in_state auth transfer.asset_id from) (moved transfer to now)

-- `transfer.toUserId ? ASSIGNED : IN_STOCK`
abbrev pub target_state : AssetTransfer → LifecycleState
target_state t = if given t.to_user_id then assigned else in_stock

-- The first update of the asset, which locks it for the transaction.
unfoldable pub touch_asset : AuthContext → ℕ → ℕ → Action Db Asset
touch_asset auth asset_id now = do
  asset ←
      or_raise (← gets (λ db. find_one (in_scope auth asset_id) db.assets))
        (not_found "Asset no longer exists in your scope")
  update_asset (in_scope auth asset_id) (λ a. record a { updated_at = now })
  pure asset

abbrev pub complete_fields : AuthContext → Option Text → ℕ → AssetTransfer → AssetTransfer
complete_fields auth note now t = record t {
  status = completed;
  completed_by_user_id = some auth.user_id;
  completed_at = some now;
  completion_note = or_else (trimmed note) t.completion_note;
}

-- The lifecycle event after the transaction.
unfoldable pub lifecycle_event :
    AuthContext → AssetTransfer → ℕ → LifecycleState → LifecycleState → ℕ → Action Db ⊤
lifecycle_event auth transfer transfer_id from to now =
    if same_state from to
    then pure tt
    else (require_events
        >> create_asset_audit_event (record {
          tenant_id = auth.tenant_id;
          company_id = auth.company_id;
          asset_id = transfer.asset_id;
          from_state = from;
          to_state = to;
          actor_user_id = auth.user_id;
          by_transfer = transfer_id;
          occurred_at = now;
        }))

module _ (lifecycle_error : LifecycleState → LifecycleState → Option Error) where
  -- The body of `withTransaction`; it returns the state that the asset left and the transfer.
  unfoldable pub complete_body :
      AuthContext
      → AssetTransfer
      → ℕ
      → Option Text
      → ℕ
      → ℕ
      → Action Db (LifecycleState × AssetTransfer)
  complete_body auth transfer transfer_id note new_id now = do
    asset ← touch_asset auth transfer.asset_id now
    raise_given (lifecycle_error asset.status (target_state transfer))
    recheck_user auth transfer.to_user_id
    validate_destination auth transfer.to_location_id transfer.to_department_id
    close_assignment transfer.asset_id transfer_id now
    move_asset auth transfer asset.status (target_state transfer) now
    open_assignment transfer.asset_id transfer.to_user_id transfer_id new_id now
    done ←
        change_transfer auth transfer_id is_approved (complete_fields auth note now)
          (conflict "Transfer changed before completion")
    pure (asset.status, done)

  unfoldable pub complete : AuthContext → ℕ → Option Text → ℕ → ℕ → Action Db AssetTransfer
  complete auth transfer_id note new_id now = do
    transfer ← require_transfer auth transfer_id
    raise_if (not (is_approved transfer.status))
        (conflict "Only approved transfers can be completed")
    outcome ← atomically (complete_body auth transfer transfer_id note new_id now)
    audit auth "asset.transfer.completed" transfer_id
        ((codes "assetId", Value.id transfer.asset_id)
          ∷ (codes "status", Value.str "COMPLETED")
          ∷ (codes "toUserId", id_value transfer.to_user_id)
          ∷ (codes "toLocationId", id_value transfer.to_location_id)
          ∷ (codes "toDepartmentId", id_value transfer.to_department_id)
          ∷ (codes "lifecycleFrom", state_value outcome.0)
          ∷ (codes "lifecycleTo", state_value (target_state transfer))
          ∷ [])
        now
    lifecycle_event auth transfer transfer_id outcome.0 (target_state transfer) now
    pure outcome.1
