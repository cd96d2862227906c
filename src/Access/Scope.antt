-- ===== src/Access/Scope.antt =====
-- The authentication context of a request and the scope that it gives
-- (common/guards/tenant-context.guard.ts, common/tenant-scoped.repository.ts).
use asset_hub.Prelude.{ℕ, Option, none, some, Bool, ◌&&◌, ◌==◌, List, String, if◌then◌else◌, true}

pub record AuthContext : Type 0 where
  pub user_id : ℕ
  pub tenant_id : ℕ
  pub company_id : ℕ
  pub cross_company : Bool
  pub permissions : List String

-- The filter `{ tenantId, companyId? }`.
pub record Scope : Type 0 where
  pub tenant_id : ℕ
  pub company_id : Option ℕ

abbrev pub scope : AuthContext → Scope
scope auth =
    if auth.cross_company
    then record { tenant_id = auth.tenant_id; company_id = none }
    else record { tenant_id = auth.tenant_id; company_id = some auth.company_id }

-- Whether a document of a tenant and a company passes the filter.
abbrev company_passes : Option ℕ → ℕ → Bool
company_passes none c = true
company_passes (some k) c = k == c

abbrev pub passes : Scope → ℕ → ℕ → Bool
passes s t c = s.tenant_id == t && company_passes s.company_id c
