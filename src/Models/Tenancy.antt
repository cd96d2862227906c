-- ===== src/Models/Tenancy.antt =====
-- models/tenancy.schemas.ts. A plant written under this schema has no business unit; `lean` queries
-- still return the field of documents from before, as the transfer service expects.
use asset_hub.Prelude.{ℕ, Option}
use asset_hub.Prelude.Text.{Text}

pub data TenantStatus : Type 0 where
  active suspended archived : TenantStatus

pub record Tenant : Type 0 where
  pub id : ℕ
  pub name : Text
  pub status : TenantStatus
  pub suspended_at : Option ℕ
  pub suspended_by : Option ℕ
  pub suspension_reason : Option Text

pub record Company : Type 0 where
  pub id : ℕ
  pub tenant_id : ℕ
  pub name : Text
  pub code : Text

pub record BusinessUnit : Type 0 where
  pub id : ℕ
  pub company_id : ℕ
  pub name : Text

pub data SiteType : Type 0 where
  plant branch_office head_office : SiteType

pub record Plant : Type 0 where
  pub id : ℕ
  pub company_id : ℕ
  pub business_unit_id : Option ℕ
  pub name : Text
  pub site_type : SiteType

pub record Location : Type 0 where
  pub id : ℕ
  pub plant_id : ℕ
  pub name : Text

pub record Department : Type 0 where
  pub id : ℕ
  pub location_id : ℕ
  pub name : Text
