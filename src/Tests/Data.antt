-- ===== src/Tests/Data.antt =====
-- A database with one tenant, for the runs (apps/api/src/models).
use asset_hub.Prelude.{ℕ, Option, none, some, true, false, [], ◌∷◌}
use asset_hub.Prelude.Text.{codes}
use asset_hub.Prelude.Action.{Error}
use asset_hub.Models.{
  Db, Asset, User, AccountType, LifecycleState, in_stock, Tenant, TenantStatus, Company,
}
use asset_hub.Access.Scope.{AuthContext}
use asset_hub.Transfer.Workflow.{Input}

abbrev pub admin : AuthContext
admin = record {
  user_id = 7;
  tenant_id = 1;
  company_id = 10;
  cross_company = false;
  permissions = [];
}

abbrev pub person : ℕ → User
person id = record {
  id = id;
  account_type = AccountType.tenant;
  tenant_id = 1;
  company_id = 10;
  email = codes "ann@example.com";
  password_hash = some (codes "x");
  first_name = codes "Ann";
  last_name = codes "Lee";
  job_title = none;
  phone = none;
  totp_secret_enc = none;
  backup_codes_hash = [];
  is_active = true;
  force_password_reset = false;
  role_ids = 30 ∷ [];
  department_id = none;
  location_id = none;
  access_token_hash = none;
  access_token_expires_at = none;
  access_token_issued_at = none;
}

abbrev pub laptop : Asset
laptop = record {
  id = 20;
  tenant_id = 1;
  company_id = 10;
  asset_type_id = 2;
  asset_number = codes "LT-1";
  status = in_stock;
  location_id = none;
  department_id = none;
  updated_at = 0;
}

abbrev pub a_tenant : Tenant
a_tenant = record {
  id = 1;
  name = codes "Acme";
  status = TenantStatus.active;
  suspended_at = none;
  suspended_by = none;
  suspension_reason = none;
}

abbrev pub a_company : Company
a_company = record { id = 10; tenant_id = 1; name = codes "Acme"; code = codes "AC" }

abbrev pub empty_db : Db
empty_db = record {
  tenants = [];
  companies = [];
  plants = [];
  business_units = [];
  locations = [];
  departments = [];
  users = [];
  roles = [];
  sessions = [];
  assets = [];
  assignments = [];
  transfers = [];
  asset_audit_events = [];
  audit_events = [];
  refuses_events = false;
  plans = [];
  subscriptions = [];
  entitlements = [];
}

abbrev pub office : Db
office = record empty_db {
  tenants = a_tenant ∷ [];
  companies = a_company ∷ [];
  users = person 7 ∷ [];
  assets = laptop ∷ [];
}

abbrev pub to_ann : Input
to_ann = record {
  to_user_id = some 7;
  to_location_id = none;
  to_department_id = none;
  reason = none;
}

abbrev pub any_transition : LifecycleState → LifecycleState → Option Error
any_transition _ _ = none
