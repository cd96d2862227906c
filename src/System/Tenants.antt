-- ===== src/System/Tenants.antt =====
-- Tenants (system-admin.service.ts, `overview`, `tenants`, `setTenantStatus`). A tenant is shown
-- without its slug; `tenants` is before its sort by name.
use asset_hub.Prelude.{
  ℕ, ⊤, Option, none, some, Bool, not, ◌&&◌, List, [], ◌∷◌, ◌==◌, length, given, ltb, get_or,
  or_else, map, String, if◌then◌else◌,
}
use asset_hub.Prelude.Text.{Text, codes, trimmed}
use asset_hub.Prelude.Members.{has}
use asset_hub.Prelude.Collection.{find_one, find_all, count_where}
use asset_hub.Prelude.Action.{Action, pure, gets, or_raise, not_found, ◌>>=◌, ◌>>◌}
use asset_hub.Models.{Db, Tenant, TenantStatus, User, Session, Subscription}
use asset_hub.Database.{update_tenant, update_sessions}
use asset_hub.Users.Accounts.{is_tenant_account}

pub record Overview : Type 0 where
  pub tenants : ℕ
  pub users : ℕ
  pub assets : ℕ
  pub subscriptions : ℕ

abbrev pub overview : Db → Overview
overview db = record {
  tenants = length db.tenants;
  users = count_where (λ u. is_tenant_account u.account_type) db.users;
  assets = length db.assets;
  subscriptions = length db.subscriptions;
}

-- `new Map(…)` of the subscriptions by tenant: the last of a tenant is kept.
unfoldable pub by_tenant : ℕ → List Subscription → Option Subscription
by_tenant tenant_id [] = none
by_tenant tenant_id (s ∷ ss) =
    or_else (by_tenant tenant_id ss) (if s.tenant_id == tenant_id then some s else none)

pub record TenantRow : Type 0 where
  pub id : ℕ
  pub name : Text
  pub status : TenantStatus
  pub subscription_status : String
  pub plan_id : Option ℕ
  pub ends_at : Option ℕ
  pub suspended_at : Option ℕ
  pub suspension_reason : Option Text

-- `sub?.status ?? 'unlicensed'`
abbrev status_of : Option Subscription → String
status_of none = "unlicensed"
status_of (some s) = s.status

abbrev pub tenant_row : List Subscription → Tenant → TenantRow
tenant_row subscriptions t = record {
  id = t.id;
  name = t.name;
  status = t.status;
  subscription_status = status_of (by_tenant t.id subscriptions);
  plan_id = elim (by_tenant t.id subscriptions) [ none ↦ none | some s ↦ some s.plan_id ];
  ends_at = elim (by_tenant t.id subscriptions) [ none ↦ none | some s ↦ s.ends_at ];
  suspended_at = t.suspended_at;
  suspension_reason = t.suspension_reason;
}

unfoldable pub tenants : Db → List TenantRow
unfolding by_tenant
tenants db = map (tenant_row db.subscriptions) db.tenants

abbrev pub activated : Tenant → Tenant
activated t = record t {
  status = TenantStatus.active;
  suspended_at = none;
  suspended_by = none;
  suspension_reason = none;
}

abbrev pub suspended : ℕ → Option ℕ → Option Text → Tenant → Tenant
suspended now actor reason t = record t {
  status = TenantStatus.suspended;
  suspended_at = some now;
  suspended_by = or_else actor t.suspended_by;
  suspension_reason = some (get_or (trimmed reason) (codes "Suspended by platform administrator"));
}

-- `{ tenantId, accountType: 'TENANT' }`
abbrev pub tenant_user : ℕ → User → Bool
tenant_user tenant_id u = u.tenant_id == tenant_id && is_tenant_account u.account_type

unfoldable pub tenant_user_ids : ℕ → List User → List ℕ
tenant_user_ids tenant_id users = map (λ u. u.id) (find_all (tenant_user tenant_id) users)

abbrev pub live_of_any : List ℕ → Session → Bool
live_of_any ids x = has x.user_id ids && not (given x.revoked_at)

abbrev pub cut_off : ℕ → Session → Session
cut_off now x = record x { revoked_at = some now; revoked_reason = some "tenant_suspended" }

-- The revocation of the sessions of the tenant's users, if it has any.
unfoldable pub revoke_tenant_sessions : ℕ → ℕ → Action Db ⊤
unfolding tenant_user_ids
revoke_tenant_sessions tenant_id now = do
  user_ids ← gets λ db. tenant_user_ids tenant_id db.users
  if ltb 0 (length user_ids) then update_sessions (live_of_any user_ids) (cut_off now) else pure tt

unfoldable pub suspend : ℕ → Option ℕ → Option Text → ℕ → Action Db ⊤
suspend tenant_id actor reason now = do
  update_tenant (λ t. t.id == tenant_id) (suspended now actor reason)
  revoke_tenant_sessions tenant_id now

pub record StatusAnswer : Type 0 where
  pub tenant_id : ℕ
  pub status : TenantStatus
  pub actor_user_id : Option ℕ

unfoldable pub set_tenant_status : ℕ → Bool → Option ℕ → Option Text → ℕ → Action Db StatusAnswer
set_tenant_status tenant_id active actor reason now = do
  tenant ←
      or_raise (← gets λ db. find_one (λ t. t.id == tenant_id) db.tenants)
        (not_found "Tenant not found")
  if active
      then update_tenant (λ t. t.id == tenant_id) activated
      else suspend tenant_id actor reason now
  pure (record {
    tenant_id = tenant_id;
    status = if active then TenantStatus.active else TenantStatus.suspended;
    actor_user_id = actor;
  })
