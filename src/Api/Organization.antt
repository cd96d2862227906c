-- ===== src/Api/Organization.antt =====
-- The routes that rename and delete parts of an organization (organization-management.controller.ts).
use asset_hub.Prelude.{⊤, ◌||◌, String}
use asset_hub.Prelude.Action.{Action}
use asset_hub.Access.Scope.{AuthContext}
use asset_hub.Organization.Management.{
  Change, rename_company_to, rename_plant_to, rename_location_to, rename_department_to,
  remove_company, remove_plant, remove_location, remove_department, manage,
}
use asset_hub.Api.World.{World, on_db, too_short, validated}

unfoldable pub organization_permission : Change → String
organization_permission change = "company:write"

unfoldable pub organization_handler : Change → AuthContext → Action World ⊤
organization_handler (rename_company_to id name code) auth =
    validated (too_short 1 name || too_short 2 code)
      (on_db (manage auth (rename_company_to id name code)))
organization_handler (rename_plant_to id name) auth =
    validated (too_short 1 name) (on_db (manage auth (rename_plant_to id name)))
organization_handler (rename_location_to id name) auth =
    validated (too_short 1 name) (on_db (manage auth (rename_location_to id name)))
organization_handler (rename_department_to id name) auth =
    validated (too_short 1 name) (on_db (manage auth (rename_department_to id name)))
organization_handler (remove_company id) auth = on_db (manage auth (remove_company id))
organization_handler (remove_plant id) auth = on_db (manage auth (remove_plant id))
organization_handler (remove_location id) auth = on_db (manage auth (remove_location id))
organization_handler (remove_department id) auth = on_db (manage auth (remove_department id))
