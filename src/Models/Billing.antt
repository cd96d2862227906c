-- ===== src/Models/Billing.antt =====
-- models/billing.schemas.ts, and the audit event that the services write.
use Prim.Native.String.{String}
use asset_hub.Prelude.{ℕ, Option, Bool, List}
use asset_hub.Prelude.Text.{Text}

-- A value in a free-form object: features, entitlements and metadata.
mutual
  pub data Value : Type 0 where
    undefined null : Value
    flag : Bool → Value
    num id : ℕ → Value
    str : String → Value
    text : Text → Value
    object : Members → Value
    array : Items → Value

  pub data Members : Type 0 where
    no_members : Members
    member : Text → Value → Members → Members

  pub data Items : Type 0 where
    no_items : Items
    item : Value → Items → Items

abbrev pub Object : Type 0
Object = List (Text × Value)

pub record Plan : Type 0 where
  pub id : ℕ
  pub name : Text
  pub features : Object

pub record Subscription : Type 0 where
  pub id : ℕ
  pub tenant_id : ℕ
  pub plan_id : ℕ
  pub status : String
  pub started_at : ℕ
  pub ends_at : Option ℕ
  pub created_at : ℕ

pub data Source : Type 0 where
  from_plan override : Source

pub record Entitlement : Type 0 where
  pub subscription_id : ℕ
  pub key : Text
  pub value : Value
  pub source : Source

pub record AuditEvent : Type 0 where
  pub tenant_id : ℕ
  pub company_id : Option ℕ
  pub actor_user_id : Option ℕ
  pub action : String
  pub target_type : String
  pub target_id : ℕ
  pub metadata : Object
  pub occurred_at : ℕ
