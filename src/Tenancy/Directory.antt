-- ===== src/Tenancy/Directory.antt =====
-- The tables of tenants, organization and roles in PostgreSQL (prisma/schema.prisma), with what a
-- `create` checks of them: the parent that a row refers to, and the unique keys.
use asset_hub.Prelude.{ℕ, ⊤, Option, Bool, not, ◌&&◌, List, [], ◌∷◌, ◌++◌, ◌==◌, any, String}
use asset_hub.Prelude.Text.{Text, text_eq}
use asset_hub.Prelude.Action.{Action, gets, modify, raise_if, failure, ◌>>=◌, ◌>>◌}
use asset_hub.Models.{Company, BusinessUnit, Location, Department}

pub record TenantRow : Type 0 where
  pub id : ℕ
  pub name : Text
  pub slug : Text

-- A plant belongs to a business unit here.
pub record Site : Type 0 where
  pub id : ℕ
  pub business_unit_id : ℕ
  pub name : Text

pub record Permission : Type 0 where
  pub id : ℕ
  pub key : String

pub record RoleRow : Type 0 where
  pub id : ℕ
  pub tenant_id : ℕ
  pub company_id : Option ℕ
  pub name : Text
  pub is_system : Bool

pub record RolePermission : Type 0 where
  pub role_id : ℕ
  pub permission_id : ℕ

pub record UserRow : Type 0 where
  pub id : ℕ
  pub tenant_id : ℕ
  pub company_id : ℕ
  pub email : Text
  pub password_hash : Text
  pub first_name : Text
  pub last_name : Text
  pub force_password_reset : Bool

pub record UserRole : Type 0 where
  pub user_id : ℕ
  pub role_id : ℕ

pub record Directory : Type 0 where
  pub tenants : List TenantRow
  pub companies : List Company
  pub units : List BusinessUnit
  pub sites : List Site
  pub locations : List Location
  pub departments : List Department
  pub permissions : List Permission
  pub roles : List RoleRow
  pub role_permissions : List RolePermission
  pub users : List UserRow
  pub user_roles : List UserRole

-- A row that another refers to has to be there.
unfoldable pub require : (Directory → Bool) → Action Directory ⊤
require present = do
  there ← gets present
  raise_if (not there) (failure "Foreign key constraint failed")

unfoldable pub insert_company : Company → Action Directory ⊤
insert_company c = do
  require λ d. any (λ t. t.id == c.tenant_id) d.tenants
  taken ← gets λ d. any (λ x. x.tenant_id == c.tenant_id && text_eq x.code c.code) d.companies
  raise_if taken (failure "Unique constraint failed on tenantId and code")
  modify λ d. record d { companies = d.companies ++ c ∷ [] }

unfoldable pub insert_unit : BusinessUnit → Action Directory ⊤
insert_unit u = do
  require λ d. any (λ c. c.id == u.company_id) d.companies
  modify λ d. record d { units = d.units ++ u ∷ [] }

unfoldable pub insert_site : Site → Action Directory ⊤
insert_site p = do
  require λ d. any (λ u. u.id == p.business_unit_id) d.units
  modify λ d. record d { sites = d.sites ++ p ∷ [] }

unfoldable pub insert_location : Location → Action Directory ⊤
insert_location l = do
  require λ d. any (λ p. p.id == l.plant_id) d.sites
  modify λ d. record d { locations = d.locations ++ l ∷ [] }

unfoldable pub insert_department : Department → Action Directory ⊤
insert_department x = do
  require λ d. any (λ l. l.id == x.location_id) d.locations
  modify λ d. record d { departments = d.departments ++ x ∷ [] }
