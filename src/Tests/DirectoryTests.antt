-- ===== src/Tests/DirectoryTests.antt =====
-- Runs of the services on Prisma: parts of organizations, roles, and the numbers of assets
-- (apps/api/src/modules/tenancy, apps/api/src/modules/rbac, apps/api/src/modules/assets).
use asset_hub.Prelude.{ℕ, ◌≡◌, ◌≢◌, refl, none, some, true, false, ◌&&◌, ◌||◌, ◌==◌, [], ◌∷◌, arith}
use asset_hub.Prelude.Text.{codes, decimal, decimal_from}
use asset_hub.Prelude.Collection.{All}
use asset_hub.Prelude.Action.{ok, ◌>>=◌}
use asset_hub.Models.{in_stock, retired}
use asset_hub.Tenancy.Directory.{
  Directory, require, insert_unit, insert_site, insert_location, insert_department,
}
use asset_hub.Tenancy.Creation.{
  create_business_unit, create_plant, create_location, create_department, assert_company_in_scope,
}
use asset_hub.Tenancy.Placement.{in_unit, create, home, home_of_new, may_create_in, create-places}
use asset_hub.Tenancy.Roles.{asked_for, create_role, assign_role, role_has, user_has}
use asset_hub.Tenancy.Catalogue.{create_role-grants, assign_role-grants}
use asset_hub.Assets.Registry.{
  AssetType, AssetRow, Register, Fields, create_asset, create_asset_body, generate_asset_number,
  asset_number_of, padded, transition_state, transition_body,
}
use asset_hub.Assets.Sequence.{add, move, serve, serve_all, numbers_differ}
use asset_hub.Tests.Data.{admin, a_company}

abbrev pub directory : Directory
directory = record {
  tenants = record { id = 1; name = codes "Acme"; slug = codes "acme" } ∷ [];
  companies = a_company ∷ [];
  units = record { id = 11; company_id = 10; name = codes "Works" } ∷ [];
  sites = [];
  locations = [];
  departments = [];
  permissions =
      record { id = 1; key = "asset:read" }
      ∷ record { id = 2; key = "platform:manage_tenants" }
      ∷ [];
  roles = [];
  role_permissions = [];
  users =
      record {
        id = 7;
        tenant_id = 1;
        company_id = 10;
        email = codes "ann@example.com";
        password_hash = codes "x";
        first_name = codes "Ann";
        last_name = codes "Lee";
        force_password_reset = false;
      }
      ∷ [];
  user_roles = [];
}

create-places_example :
    let d' = (create admin (in_unit 11) (codes "Pune") 12 directory).1 in
    (c : ℕ) × (home (in_unit 11) directory ≡ some c)
    × (may_create_in admin c ≡ true)
    × (home_of_new (in_unit 11) 12 d' ≡ some c)
unfolding create create_business_unit create_plant create_location create_department
    assert_company_in_scope insert_unit insert_site insert_location insert_department require ◌>>=◌
create-places_example = create-places admin (in_unit 11) (codes "Pune") 12 directory _ tt refl refl

abbrev with_role : Directory
unfolding create_role ◌>>=◌
with_role = (create_role admin (codes "Boss") ("platform:manage_tenants" ∷ []) 40 directory).1

create_role-grants_example :
    (admin.tenant_id ≡ admin.tenant_id)
    × All
        (λ p. role_has with_role 40 p.id ≡ asked_for ("platform:manage_tenants" ∷ []) p)
        with_role.permissions
unfolding with_role create_role ◌>>=◌
create_role-grants_example =
    create_role-grants admin (codes "Boss") ("platform:manage_tenants" ∷ []) 40 directory _ _
      (((λ h. omega (arith, h)), tt), (tt, tt)) tt refl

assign_role-grants_example :
    let done = assign_role 7 40 with_role in
    (done.0 ≡ ok (record { user_id = 7; role_id = 40 }))
    × ((u p : ℕ)
        → user_has done.1 u p ≡ (user_has with_role u p || (7 == u && role_has with_role 40 p)))
unfolding with_role create_role ◌>>=◌
assign_role-grants_example = assign_role-grants 7 40 with_role refl refl refl

abbrev printers : AssetType
printers = record { id = 2; company_id = 10; name = codes "Printer" }

abbrev pub stock : Register
stock = record {
  types = printers ∷ [];
  rules =
      record {
        id = 4;
        asset_type_id = 2;
        prefix = codes "PR";
        separator = codes "-";
        padding = 4;
        next_sequence = 9;
      }
      ∷ [];
  companies = record { id = 10; code = codes "AC" } ∷ [];
  assets = [];
  transitions = [];
}

abbrev plain : Fields
plain = record {
  id = none;
  tenant_id = none;
  company_id = none;
  asset_type_id = none;
  asset_number = none;
  status = none;
}

abbrev printer : ℕ → AssetRow
printer id = record {
  id = id;
  tenant_id = 1;
  company_id = 10;
  asset_type_id = 2;
  asset_number = codes "PR-AC-0009";
  status = in_stock;
}

numbers_differ_example : codes "PR-AC-0009" ≢ codes "PR-AC-0011"
unfolding create_asset create_asset_body generate_asset_number asset_number_of padded decimal
    decimal_from serve serve_all transition_state transition_body ◌>>=◌
numbers_differ_example =
    numbers_differ admin admin 2 plain plain 20 22
      (add admin 2 plain 21 ∷ move admin 20 retired 7 none ∷ []) stock
      (create_asset admin 2 plain 20 stock).1 _ (printer 20)
      (record (printer 22) { asset_number = codes "PR-AC-0011" }) (tt, tt) refl refl refl refl
