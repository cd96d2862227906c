-- ===== src/Tests/TransferTests.antt =====
-- Runs of the transfer service (asset-transfer.service.ts).
use asset_hub.Prelude.{ℕ, ◌≡◌, refl, none, some, List, [], ◌∷◌, arith}
use asset_hub.Prelude.Text.{trimmed}
use asset_hub.Prelude.Collection.{Evolves, count_where}
use asset_hub.Prelude.Action.{not_found, ◌>>=◌}
use asset_hub.Models.{Db, AssetTransfer, pending, approved}
use asset_hub.Database.{
  update_asset, create_assignment, update_transfer, create_audit_event, create_asset_audit_event,
}
use asset_hub.Access.Scope.{AuthContext}
use asset_hub.Transfer.Workflow.{require_events, request_check, request_create, check_user, audit}
use asset_hub.Transfer.Destination.{validate_destination}
use asset_hub.Transfer.Decisions.{approve, change_transfer}
use asset_hub.Transfer.Workflow.{require_transfer}
use asset_hub.Transfer.Completion.{
  complete, complete_body, touch_asset, recheck_user, close_assignment, close_found, move_asset,
  open_assignment, lifecycle_event,
}
use asset_hub.Transfer.Custody.{HandedOver, complete-HandedOver}
use asset_hub.Transfer.Calls.{Call, ask, accept, finish, serve, serve_all}
use asset_hub.Transfer.Progress.{Follows}
use asset_hub.Transfer.Machine.{Steps, serve_all_forward}
use asset_hub.Transfer.Active.{OneActive, active_for, serve_all-OneActive, requests_race}
use asset_hub.Transfer.Atomicity.{serve_all_or_nothing}
use asset_hub.Transfer.Isolation.{Isolated}
use asset_hub.Transfer.Boundary.{serve-Isolated}
use asset_hub.Tests.Data.{admin, office, to_ann, any_transition}

abbrev calls : List (AuthContext × Call × ℕ)
calls =
    (admin, ask 20 to_ann 50, 1000)
    ∷ (admin, accept 50 none, 2000)
    ∷ (admin, finish 50 none 60, 3000)
    ∷ []

serve_all_forward_example :
    Steps any_transition calls office
    × Evolves Follows (λ _. Unit) office.transfers (serve_all any_transition calls office).transfers
serve_all_forward_example = serve_all_forward any_transition calls office

serve-Isolated_example :
    Isolated admin office (serve any_transition admin (ask 20 to_ann 50) 1000 office).1
serve-Isolated_example = serve-Isolated admin any_transition (ask 20 to_ann 50) 1000 office

serve_all_or_nothing_example : (serve any_transition admin (accept 50 none) 1000 office).1 ≡ office
unfolding serve approve require_transfer ◌>>=◌
serve_all_or_nothing_example =
    serve_all_or_nothing any_transition admin (accept 50 none) 1000 office
      (not_found "Transfer request not found") refl (λ h. ground (arith, h))

office-OneActive : OneActive office
office-OneActive asset_id = omega arith

serve_all-OneActive_example : OneActive (serve_all any_transition calls office)
serve_all-OneActive_example = serve_all-OneActive any_transition calls office office-OneActive

abbrev draft : AssetTransfer
draft = record {
  id = 0;
  tenant_id = 1;
  company_id = 10;
  asset_id = 20;
  from_user_id = none;
  from_location_id = none;
  from_department_id = none;
  to_user_id = some 7;
  to_location_id = none;
  to_department_id = none;
  requested_by_user_id = 7;
  approved_by_user_id = none;
  completed_by_user_id = none;
  cancelled_by_user_id = none;
  status = pending;
  requested_at = 0;
  approved_at = none;
  completed_at = none;
  cancelled_at = none;
  approval_note = none;
  completion_note = none;
  cancellation_note = none;
  reason = none;
}

requests_race_example :
    count_where
      (active_for 20)
      (request_create admin draft 51 1000 (request_create admin draft 50 1000 office).1).1.transfers
    ≡ 2
unfolding request_check check_user validate_destination ◌>>=◌ trimmed
requests_race_example =
    requests_race admin admin 20 to_ann to_ann draft draft 50 51 1000 office refl refl

-- A transfer of the laptop to Ann that was approved.
abbrev to_be_completed : Db
to_be_completed = record office { transfers = record draft { id = 50; status = approved } ∷ [] }

complete-HandedOver_example :
    HandedOver admin
      (record draft { id = 50; status = approved })
      to_be_completed
      (complete any_transition admin 50 none 60 3000 to_be_completed).1
unfolding complete complete_body require_transfer ◌>>=◌ touch_asset recheck_user
    validate_destination close_assignment close_found move_asset open_assignment update_asset
    create_assignment change_transfer update_transfer audit require_events lifecycle_event
    create_audit_event create_asset_audit_event
complete-HandedOver_example =
    complete-HandedOver any_transition admin (record draft { id = 50; status = approved }) 50 none
      60 3000 to_be_completed _ _ tt (omega arith) refl refl
