-- ===== src/Models/Assets.antt =====
-- models/asset.schemas.ts, with the enum `AssetLifecycleState` of prisma/schema.prisma.
use asset_hub.Prelude.{ℕ, Option}
use asset_hub.Prelude.Text.{Text}

pub data LifecycleState : Type 0 where
  requested in_stock assigned in_repair lost_stolen retired disposed : LifecycleState

pub record Asset : Type 0 where
  pub id : ℕ
  pub tenant_id : ℕ
  pub company_id : ℕ
  pub asset_type_id : ℕ
  pub asset_number : Text
  pub status : LifecycleState
  pub location_id : Option ℕ
  pub department_id : Option ℕ
  pub updated_at : ℕ

pub record AssetAssignment : Type 0 where
  pub id : ℕ
  pub asset_id : ℕ
  pub user_id : Option ℕ
  pub assigned_at : ℕ
  pub returned_at : Option ℕ
  -- The transfer that the note names: `Transferred via request …`.
  pub via_transfer : Option ℕ

pub data TransferStatus : Type 0 where
  pending approved completed rejected cancelled : TransferStatus

pub record AssetTransfer : Type 0 where
  pub id : ℕ
  pub tenant_id : ℕ
  pub company_id : ℕ
  pub asset_id : ℕ
  pub from_user_id : Option ℕ
  pub from_location_id : Option ℕ
  pub from_department_id : Option ℕ
  pub to_user_id : Option ℕ
  pub to_location_id : Option ℕ
  pub to_department_id : Option ℕ
  pub requested_by_user_id : ℕ
  pub approved_by_user_id : Option ℕ
  pub completed_by_user_id : Option ℕ
  pub cancelled_by_user_id : Option ℕ
  pub status : TransferStatus
  pub requested_at : ℕ
  pub approved_at : Option ℕ
  pub completed_at : Option ℕ
  pub cancelled_at : Option ℕ
  pub approval_note : Option Text
  pub completion_note : Option Text
  pub cancellation_note : Option Text
  pub reason : Option Text

pub record AssetAuditEvent : Type 0 where
  pub tenant_id : ℕ
  pub company_id : ℕ
  pub asset_id : ℕ
  pub from_state : LifecycleState
  pub to_state : LifecycleState
  pub actor_user_id : ℕ
  -- The transfer that the reason names: `Transfer …`.
  pub by_transfer : ℕ
  pub occurred_at : ℕ
