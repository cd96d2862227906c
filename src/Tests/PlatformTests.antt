-- ===== src/Tests/PlatformTests.antt =====
-- Runs of the platform's administration and of the security cache (apps/api/src/modules/system,
-- apps/api/src/modules/identity).
use asset_hub.Prelude.{◌≡◌, refl, none, some, true, false, ◌&&◌, ◌==◌, any, List, [], ◌∷◌, arith}
use asset_hub.Prelude.Text.{codes, trimmed}
use asset_hub.Prelude.Collection.{find_one, All}
use asset_hub.Prelude.Action.{ok, ◌>>=◌}
use asset_hub.Models.{Db, Tenant, TenantStatus, User, AccountType, Role, Session}
use asset_hub.Database.{update_tenant, update_sessions, update_user}
use asset_hub.Access.Scope.{scope}
use asset_hub.Auth.Store.{Store}
use asset_hub.Users.Accounts.{reachable, require_user, role_passes, set_roles, unique_ids}
use asset_hub.Users.Scoped.{set_roles-scoped}
use asset_hub.System.Tenants.{tenant_user_ids, set_tenant_status, suspend, revoke_tenant_sessions}
use asset_hub.System.Suspension.{CutOff, OthersKept, suspension_logs_out}
use asset_hub.System.PlatformRoles.{set_platform_user_roles, system_account, is_platform_key}
use asset_hub.System.Console.{PlatformIds, set_platform_user_roles-grants}
use asset_hub.Identity.Refinement.{run_all-refines}
use asset_hub.Identity.CacheMap.{Command, store, once, take, run_all, spec_all, view_of, OneEach}
use asset_hub.Tests.Data.{admin, office, person}

abbrev session_of_ann : Session
session_of_ann = record {
  id = 1;
  user_id = 7;
  refresh_token_hash = codes "h";
  expires_at = 9000;
  revoked_at = none;
  revoked_reason = none;
}

abbrev staff : Role
staff = record {
  id = 30;
  tenant_id = 1;
  company_id = some 10;
  name = codes "Staff";
  permissions = "asset:read" ∷ [];
}

abbrev console : Role
console = record {
  id = 31;
  tenant_id = 1;
  company_id = none;
  name = codes "Platform Admin";
  permissions = "platform:console:access" ∷ [];
}

abbrev operator : User
operator = record (person 8) { account_type = AccountType.system }

abbrev platform : Db
platform = record office {
  users = person 7 ∷ operator ∷ [];
  roles = staff ∷ console ∷ [];
  sessions = session_of_ann ∷ record session_of_ann { id = 2; user_id = 8 } ∷ [];
}

suspension_logs_out_example :
    let db' = (set_tenant_status 1 false (some 8) none 1000 platform).1 in
    (t : Tenant) × (find_one (λ x. x.id == 1) db'.tenants ≡ some t)
    × (t.status ≡ TenantStatus.suspended)
    × (t.suspended_at ≡ some 1000)
    × CutOff (tenant_user_ids 1 db'.users) db'.sessions
    × OthersKept (tenant_user_ids 1 platform.users) platform.sessions db'.sessions
unfolding set_tenant_status suspend update_tenant revoke_tenant_sessions update_sessions
    tenant_user_ids trimmed ◌>>=◌
suspension_logs_out_example = suspension_logs_out 1 1000 (some 8) none platform _ _ refl

set_platform_user_roles-grants_example :
    let db' = (set_platform_user_roles 8 (31 ∷ 31 ∷ []) none platform).1 in
    (u : User) × (find_one (system_account 8) db'.users ≡ some u)
    × (u.role_ids ≡ 31 ∷ [])
    × PlatformIds db'.roles (31 ∷ [])
unfolding set_platform_user_roles unique_ids is_platform_key update_user ◌>>=◌
set_platform_user_roles-grants_example =
    set_platform_user_roles-grants 8 (31 ∷ 31 ∷ []) none platform _ _
      ((((λ h. omega (arith, h)), tt), (tt, tt))) ((((λ h. omega (arith, h)), tt), (tt, tt))) refl

set_roles-scoped_example :
    let db' = (set_roles admin 7 (30 ∷ []) platform).1 in
    (u : User) × (find_one (reachable admin 7) db'.users ≡ some u)
    × (u.role_ids ≡ 30 ∷ [])
    × All (λ i. any (λ x. x.id == i && role_passes (scope admin) x) db'.roles ≡ true) (30 ∷ [])
unfolding set_roles require_user unique_ids update_user ◌>>=◌
set_roles-scoped_example =
    set_roles-scoped admin 7 (30 ∷ []) platform _ _ ((((λ h. omega (arith, h)), tt), (tt, tt))) refl

abbrev empty_cache : Store
empty_cache = record {
  users = [];
  user_roles = [];
  sessions = [];
  login_history = [];
  companies = [];
  idp_configs = [];
  cache = [];
}

abbrev commands : List Command
commands =
    store (codes "state") (codes "nonce") 600 0
    ∷ once (codes "assertion") 300 10
    ∷ take (codes "state") 20
    ∷ take (codes "state") 30
    ∷ once (codes "assertion") 300 40
    ∷ []

run_all-refines_example :
    (s' : Store) × (run_all commands empty_cache ≡ (ok (spec_all commands (view_of [])).0, s'))
    × (view_of s'.cache ≡ (spec_all commands (view_of [])).1)
    × OneEach s'.cache
run_all-refines_example = run_all-refines commands empty_cache tt
