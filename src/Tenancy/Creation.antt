-- ===== src/Tenancy/Creation.antt =====
-- Creating the parts of an organization (tenancy.service.ts).
use asset_hub.Prelude.{ℕ, ⊤, Option, not, ◌&&◌, List, ◌==◌}
use asset_hub.Prelude.Text.{Text}
use asset_hub.Prelude.Collection.{find_one, find_all}
use asset_hub.Prelude.Action.{
  Action, pure, gets, or_raise, raise_if, forbidden, failure, ◌>>=◌, ◌>>◌,
}
use asset_hub.Models.{Company, BusinessUnit, Location, Department}
use asset_hub.Access.Scope.{AuthContext}
use asset_hub.Tenancy.Directory.{
  Directory, Site, insert_company, insert_unit, insert_site, insert_location, insert_department,
}

-- `listCompanies`. Prisma reads `where: { tenantId, companyId }`; the table of companies has no column
-- `companyId`, so a caller who is bound to a company gets an error.
unfoldable pub list_companies : AuthContext → Action Directory (List Company)
list_companies auth = do
  raise_if (not auth.cross_company) (failure "Unknown argument companyId")
  gets λ d. find_all (λ c. c.tenant_id == auth.tenant_id) d.companies

unfoldable pub create_company : AuthContext → Text → Text → ℕ → Action Directory Company
create_company auth name code new_id = do
  let company : Company = record {
    id = new_id;
    tenant_id = auth.tenant_id;
    name = name;
    code = code;
  }
  insert_company company
  pure company

unfoldable pub assert_company_in_scope : AuthContext → ℕ → Action Directory ⊤
assert_company_in_scope auth company_id = do
  raise_if (not auth.cross_company && not (auth.company_id == company_id))
      (forbidden "Company out of scope for this user")

-- `findUniqueOrThrow`, and the parent that `include` reads.
abbrev pub row_of : {A : Type 0} → Option A → Action Directory A
row_of found = or_raise found (failure "No record was found for a query")

abbrev pub unit_at : ℕ → Directory → Option BusinessUnit
unit_at id d = find_one (λ u. u.id == id) d.units

abbrev pub site_at : ℕ → Directory → Option Site
site_at id d = find_one (λ p. p.id == id) d.sites

abbrev pub location_at : ℕ → Directory → Option Location
location_at id d = find_one (λ l. l.id == id) d.locations

unfoldable pub create_business_unit : AuthContext → ℕ → Text → ℕ → Action Directory BusinessUnit
create_business_unit auth company_id name new_id = do
  assert_company_in_scope auth company_id
  let unit : BusinessUnit = record { id = new_id; company_id = company_id; name = name }
  insert_unit unit
  pure unit

unfoldable pub create_plant : AuthContext → ℕ → Text → ℕ → Action Directory Site
create_plant auth business_unit_id name new_id = do
  bu ← row_of (← gets (unit_at business_unit_id))
  assert_company_in_scope auth bu.company_id
  let site : Site = record { id = new_id; business_unit_id = business_unit_id; name = name }
  insert_site site
  pure site

unfoldable pub create_location : AuthContext → ℕ → Text → ℕ → Action Directory Location
create_location auth plant_id name new_id = do
  plant ← row_of (← gets (site_at plant_id))
  bu ← row_of (← gets (unit_at plant.business_unit_id))
  assert_company_in_scope auth bu.company_id
  let location : Location = record { id = new_id; plant_id = plant_id; name = name }
  insert_location location
  pure location

unfoldable pub create_department : AuthContext → ℕ → Text → ℕ → Action Directory Department
create_department auth location_id name new_id = do
  location ← row_of (← gets (location_at location_id))
  plant ← row_of (← gets (site_at location.plant_id))
  bu ← row_of (← gets (unit_at plant.business_unit_id))
  assert_company_in_scope auth bu.company_id
  let department : Department = record { id = new_id; location_id = location_id; name = name }
  insert_department department
  pure department
