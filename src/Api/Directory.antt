-- ===== src/Api/Directory.antt =====
-- The routes of the organization and of roles on Prisma (tenancy.controller.ts, rbac.controller.ts). Four reads call
-- methods that the service does not have, and fail.
use asset_hub.Prelude.{ℕ, ⊤, ◌||◌, List, String}
use asset_hub.Prelude.Text.{Text}
use asset_hub.Prelude.Action.{Action, gets, raise, failure}
use asset_hub.Access.Scope.{AuthContext}
use asset_hub.Tenancy.Creation.{
  list_companies, create_company, create_business_unit, create_plant, create_location,
  create_department,
}
use asset_hub.Tenancy.Roles.{list_permissions, list_roles, create_role, assign_role}
use asset_hub.Api.World.{World, on_directory, too_short, validated}

pub data CompanyRoute : Type 0 where
  companies : CompanyRoute
  new_company : Text → Text → ℕ → CompanyRoute
  units_of sites_of locations_of departments_of : ℕ → CompanyRoute
  new_unit new_site new_location new_department : ℕ → Text → ℕ → CompanyRoute

unfoldable pub company_permission : CompanyRoute → String
company_permission companies = "company:read"
company_permission (new_company name code id) = "company:write"
company_permission (units_of id) = "company:read"
company_permission (sites_of id) = "company:read"
company_permission (locations_of id) = "company:read"
company_permission (departments_of id) = "company:read"
company_permission (new_unit parent name id) = "company:write"
company_permission (new_site parent name id) = "company:write"
company_permission (new_location parent name id) = "company:write"
company_permission (new_department parent name id) = "company:write"

abbrev no_method : Action World ⊤
no_method = raise (failure "The service has no such method")

unfoldable pub company_handler : CompanyRoute → AuthContext → Action World ⊤
company_handler companies auth = on_directory (list_companies auth)
company_handler (new_company name code id) auth =
    validated (too_short 1 name || too_short 2 code)
      (on_directory (create_company auth name code id))
company_handler (units_of id) auth = no_method
company_handler (sites_of id) auth = no_method
company_handler (locations_of id) auth = no_method
company_handler (departments_of id) auth = no_method
company_handler (new_unit parent name id) auth =
    validated (too_short 1 name) (on_directory (create_business_unit auth parent name id))
company_handler (new_site parent name id) auth =
    validated (too_short 1 name) (on_directory (create_plant auth parent name id))
company_handler (new_location parent name id) auth =
    validated (too_short 1 name) (on_directory (create_location auth parent name id))
company_handler (new_department parent name id) auth =
    validated (too_short 1 name) (on_directory (create_department auth parent name id))

pub data RoleRoute : Type 0 where
  permissions roles : RoleRoute
  new_role : Text → List String → ℕ → RoleRoute
  assign : ℕ → ℕ → RoleRoute

unfoldable pub role_permission : RoleRoute → String
role_permission permissions = "role:read"
role_permission roles = "role:read"
role_permission (new_role name keys id) = "role:write"
role_permission (assign role_id user_id) = "role:write"

unfoldable pub role_handler : RoleRoute → AuthContext → Action World ⊤
role_handler permissions auth = on_directory (gets list_permissions)
role_handler roles auth = on_directory (gets (list_roles auth))
role_handler (new_role name keys id) auth =
    validated (too_short 1 name) (on_directory (create_role auth name keys id))
role_handler (assign role_id user_id) auth = on_directory (assign_role user_id role_id)
