-- ===== src/Organization/Management.antt =====
-- Renaming and deleting the parts of an organization (organization-management.service.ts). The time
-- stamp `updatedAt` is left out. `Promise.all` only reads, so its order does not matter.
use asset_hub.Prelude.{ℕ, ⊤, Bool, not, ◌&&◌, ◌||◌, ◌==◌, ltb, given}
use asset_hub.Prelude.Text.{Text, text_eq, trim, to_upper}
use asset_hub.Prelude.Collection.{find_one, count_where}
use asset_hub.Prelude.Action.{
  Action, pure, gets, or_raise, raise_if, forbidden, not_found, conflict, ◌>>=◌, ◌>>◌,
}
use asset_hub.Models.{Db, Company, Plant, Location, Department}
use asset_hub.Database.{
  update_company, delete_company as drop_company, update_plant, delete_plant as drop_plant,
  update_location, delete_location as drop_location, update_department,
  delete_department as drop_department,
}
use asset_hub.Access.Scope.{AuthContext}

abbrev pub own_company : AuthContext → ℕ → Company → Bool
own_company auth company_id c = c.id == company_id && c.tenant_id == auth.tenant_id

unfoldable pub assert_company : AuthContext → ℕ → Action Db Company
assert_company auth company_id = do
  company ←
      or_raise (← gets (λ db. find_one (own_company auth company_id) db.companies))
        (not_found "Company not found")
  raise_if (not auth.cross_company && not (company.id == auth.company_id))
      (forbidden "Company out of scope for this user")
  pure company

abbrev pub rename_company : Text → Text → Company → Company
rename_company name code c = record c { name = trim name; code = to_upper (trim code) }

unfoldable pub update_company_details : AuthContext → ℕ → Text → Text → Action Db Company
update_company_details auth company_id name code = do
  assert_company auth company_id
  duplicate ← gets (λ db.
      find_one
        (λ c.
          c.tenant_id == auth.tenant_id
          && text_eq c.code (to_upper (trim code))
          && not (c.id == company_id))
        db.companies)
  raise_if (given duplicate) (conflict "Company code already exists")
  old ←
      or_raise (← gets (λ db. find_one (own_company auth company_id) db.companies))
        (not_found "Company not found")
  update_company (own_company auth company_id) (rename_company name code)
  pure (rename_company name code old)

-- The part of `deleteCompany` after the company was found in scope.
unfoldable pub delete_company_if_empty : AuthContext → ℕ → Action Db ⊤
delete_company_if_empty auth company_id = do
  sites ← gets (λ db. count_where (λ p. p.company_id == company_id) db.plants)
  assets ← gets (λ db. count_where (λ a. a.company_id == company_id) db.assets)
  users ← gets (λ db.
      count_where (λ u. u.tenant_id == auth.tenant_id && u.company_id == company_id) db.users)
  raise_if (ltb 0 sites || ltb 0 assets || ltb 0 users) (
      conflict
        "Company cannot be deleted while it contains sites, assets, or users. Remove or reassign them first.")
  found ← gets (λ db. find_one (own_company auth company_id) db.companies)
  raise_if (not (given found)) (not_found "Company not found")
  drop_company (own_company auth company_id)

unfoldable pub delete_company : AuthContext → ℕ → Action Db ⊤
delete_company auth company_id = do
  assert_company auth company_id
  delete_company_if_empty auth company_id

unfoldable pub assert_plant : AuthContext → ℕ → Action Db Plant
assert_plant auth plant_id = do
  plant ←
      or_raise (← gets (λ db. find_one (λ p. p.id == plant_id) db.plants))
        (not_found "Site not found")
  assert_company auth plant.company_id
  pure plant

abbrev pub rename_plant : Text → Plant → Plant
rename_plant name p = record p { name = trim name }

unfoldable pub update_plant_name : AuthContext → ℕ → Text → Action Db Plant
update_plant_name auth plant_id name = do
  plant ← assert_plant auth plant_id
  update_plant (λ p. p.id == plant_id) (rename_plant name)
  pure (rename_plant name plant)

unfoldable pub delete_plant_if_empty : ℕ → Action Db ⊤
delete_plant_if_empty plant_id = do
  locations ← gets (λ db. count_where (λ l. l.plant_id == plant_id) db.locations)
  raise_if (ltb 0 locations) (conflict "Site cannot be deleted while it contains locations.")
  drop_plant (λ p. p.id == plant_id)

unfoldable pub delete_plant : AuthContext → ℕ → Action Db ⊤
delete_plant auth plant_id = do assert_plant auth plant_id; delete_plant_if_empty plant_id

unfoldable pub assert_location : AuthContext → ℕ → Action Db Location
assert_location auth location_id = do
  location ←
      or_raise (← gets (λ db. find_one (λ l. l.id == location_id) db.locations))
        (not_found "Location not found")
  plant ←
      or_raise (← gets (λ db. find_one (λ p. p.id == location.plant_id) db.plants))
        (not_found "Site not found")
  assert_company auth plant.company_id
  pure location

abbrev pub rename_location : Text → Location → Location
rename_location name l = record l { name = trim name }

unfoldable pub update_location_name : AuthContext → ℕ → Text → Action Db Location
update_location_name auth location_id name = do
  location ← assert_location auth location_id
  update_location (λ l. l.id == location_id) (rename_location name)
  pure (rename_location name location)

unfoldable pub delete_location_if_empty : ℕ → Action Db ⊤
delete_location_if_empty location_id = do
  departments ← gets (λ db. count_where (λ d. d.location_id == location_id) db.departments)
  raise_if (ltb 0 departments)
      (conflict "Location cannot be deleted while it contains departments.")
  drop_location (λ l. l.id == location_id)

unfoldable pub delete_location : AuthContext → ℕ → Action Db ⊤
delete_location auth location_id = do
  assert_location auth location_id
  delete_location_if_empty location_id

unfoldable pub assert_department : AuthContext → ℕ → Action Db Department
assert_department auth department_id = do
  department ←
      or_raise (← gets (λ db. find_one (λ d. d.id == department_id) db.departments))
        (not_found "Department not found")
  assert_location auth department.location_id
  pure department

abbrev pub rename_department : Text → Department → Department
rename_department name d = record d { name = trim name }

unfoldable pub update_department_name : AuthContext → ℕ → Text → Action Db Department
update_department_name auth department_id name = do
  department ← assert_department auth department_id
  update_department (λ d. d.id == department_id) (rename_department name)
  pure (rename_department name department)

unfoldable pub delete_department : AuthContext → ℕ → Action Db ⊤
delete_department auth department_id = do
  assert_department auth department_id
  drop_department (λ d. d.id == department_id)

-- The calls of organization-management.controller.ts.
pub data Change : Type 0 where
  rename_company_to : ℕ → Text → Text → Change
  rename_plant_to rename_location_to rename_department_to : ℕ → Text → Change
  remove_company remove_plant remove_location remove_department : ℕ → Change

unfoldable pub manage : AuthContext → Change → Action Db ⊤
manage auth (rename_company_to id name code) =
    (update_company_details auth id name code >>= λ _. pure tt)
manage auth (rename_plant_to id name) = (update_plant_name auth id name >>= λ _. pure tt)
manage auth (rename_location_to id name) = (update_location_name auth id name >>= λ _. pure tt)
manage auth (rename_department_to id name) = (update_department_name auth id name >>= λ _. pure tt)
manage auth (remove_company id) = delete_company auth id
manage auth (remove_plant id) = delete_plant auth id
manage auth (remove_location id) = delete_location auth id
manage auth (remove_department id) = delete_department auth id
