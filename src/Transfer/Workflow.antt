-- ===== src/Transfer/Workflow.antt =====
-- Requests and their decisions (asset-transfer.service.ts). The compare-and-set that ends an
-- operation is a function of its own, since other requests may run between the read before it and
-- the write.
use asset_hub.Prelude.{
  ℕ, ⊤, Option, none, some, Bool, true, false, not, ◌&&◌, ◌||◌, ◌==◌, List, [], ◌∷◌, given, String,
}
use asset_hub.Prelude.Collection.{find_one, find_all}
use asset_hub.Prelude.Text.{Text, codes, trimmed}
use asset_hub.Prelude.Action.{
  Action, Error, failure, pure, or_raise, raise_if, gets, ◌>>=◌, ◌>>◌, forbidden, not_found,
  conflict,
}
use asset_hub.Models.{
  Db, AssetTransfer, TransferStatus, pending, approved, Value, Object, AssetAssignment,
}
use asset_hub.Database.{create_transfer, create_audit_event}
use asset_hub.Access.Scope.{AuthContext, scope, passes}
use asset_hub.Transfer.Destination.{validate_destination}

abbrev pub is_pending : TransferStatus → Bool
is_pending pending = true
is_pending _ = false

abbrev pub is_approved : TransferStatus → Bool
is_approved approved = true
is_approved _ = false

-- `{ $in: ['PENDING', 'APPROVED'] }`
abbrev pub is_active : TransferStatus → Bool
is_active s = is_pending s || is_approved s

abbrev pub id_value : Option ℕ → Value
id_value none = Value.undefined
id_value (some n) = Value.id n

abbrev pub note_value : Option Text → Value
note_value none = Value.null
note_value (some t) = Value.text t

-- `create` on a collection of events, which throws while the database refuses writes to these.
abbrev pub event_refused : Error
event_refused = failure "The event could not be written"

unfoldable pub require_events : Action Db ⊤
require_events = do refuses ← gets λ db. db.refuses_events; raise_if refuses event_refused

-- `audit`
unfoldable pub audit : AuthContext → String → ℕ → Object → ℕ → Action Db ⊤
audit auth action target_id metadata now = do
  require_events
  create_audit_event (record {
    tenant_id = auth.tenant_id;
    company_id = some auth.company_id;
    actor_user_id = some auth.user_id;
    action = action;
    target_type = "asset_transfer";
    target_id = target_id;
    metadata = metadata;
    occurred_at = now;
  })

-- `list`, before the sort by the time of the request.
abbrev status_passes : Option (TransferStatus → Bool) → TransferStatus → Bool
status_passes none s = true
status_passes (some is) s = is s

unfoldable pub list : AuthContext → Option (TransferStatus → Bool) → Db → List AssetTransfer
list auth status db =
    find_all (λ t. passes (scope auth) t.tenant_id t.company_id && status_passes status t.status)
      db.transfers

-- `requireTransfer`, which `get` also is.
unfoldable pub require_transfer : AuthContext → ℕ → Action Db AssetTransfer
require_transfer auth transfer_id = do
  or_raise
      (← gets (λ db.
        find_one (λ t. t.id == transfer_id && passes (scope auth) t.tenant_id t.company_id)
          db.transfers))
      (not_found "Transfer request not found")

abbrev pub is_open : AssetAssignment → Bool
is_open a = not (given a.returned_at)

-- `currentUserId`
abbrev pub current_user_id : ℕ → Db → Option ℕ
current_user_id asset_id db =
    elim (find_one (λ a. a.asset_id == asset_id && is_open a) db.assignments) [
      | none ↦ none
      | some a ↦ a.user_id
    ]

-- What a request asks for.
pub record Input : Type 0 where
  pub to_user_id : Option ℕ
  pub to_location_id : Option ℕ
  pub to_department_id : Option ℕ
  pub reason : Option Text

-- The check of the destination user in `request`.
unfoldable pub check_user : AuthContext → Option ℕ → Action Db ⊤
check_user auth none = pure tt
check_user auth (some user_id) = do
  user ←
      or_raise
        (← gets (λ db.
          find_one (λ u. u.id == user_id && passes (scope auth) u.tenant_id u.company_id) db.users))
        (forbidden "Destination user is outside your scope")
  raise_if (not user.is_active) (forbidden "Destination user is inactive")

-- The reads of `request`, up to `create`.
unfoldable pub request_check : AuthContext → ℕ → Input → Action Db AssetTransfer
request_check auth asset_id input = do
  asset ←
      or_raise
        (← gets (λ db.
          find_one (λ a. a.id == asset_id && passes (scope auth) a.tenant_id a.company_id)
            db.assets))
        (not_found "Asset not found in your scope")
  raise_if
      (not (given input.to_user_id || given input.to_location_id || given input.to_department_id))
      (forbidden "Transfer destination is required")
  existing ← gets (λ db. find_one (λ t. t.asset_id == asset_id && is_active t.status) db.transfers)
  raise_if (given existing) (conflict "Asset already has an active transfer request")
  check_user auth input.to_user_id
  validate_destination auth input.to_location_id input.to_department_id
  from ← gets (current_user_id asset_id)
  pure (record {
    id = 0;
    tenant_id = auth.tenant_id;
    company_id = asset.company_id;
    asset_id = asset_id;
    from_user_id = from;
    from_location_id = asset.location_id;
    from_department_id = asset.department_id;
    to_user_id = input.to_user_id;
    to_location_id = input.to_location_id;
    to_department_id = input.to_department_id;
    requested_by_user_id = auth.user_id;
    approved_by_user_id = none;
    completed_by_user_id = none;
    cancelled_by_user_id = none;
    status = pending;
    requested_at = 0;
    approved_at = none;
    completed_at = none;
    cancelled_at = none;
    approval_note = none;
    completion_note = none;
    cancellation_note = none;
    reason = trimmed input.reason;
  })

-- `create` and the audit event, with the id that the database gives and the time.
unfoldable pub request_create : AuthContext → AssetTransfer → ℕ → ℕ → Action Db AssetTransfer
request_create auth draft new_id now = do
  let doc = record draft { id = new_id; requested_at = now }
  create_transfer doc
  audit auth "asset.transfer.requested" new_id
      ((codes "assetId", Value.id doc.asset_id)
        ∷ (codes "status", Value.str "PENDING")
        ∷ (codes "toUserId", id_value doc.to_user_id)
        ∷ (codes "toLocationId", id_value doc.to_location_id)
        ∷ (codes "toDepartmentId", id_value doc.to_department_id)
        ∷ [])
      now
  pure doc

unfoldable pub request : AuthContext → ℕ → Input → ℕ → ℕ → Action Db AssetTransfer
request auth asset_id input new_id now = do
  draft ← request_check auth asset_id input
  request_create auth draft new_id now
