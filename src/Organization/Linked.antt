-- ===== src/Organization/Linked.antt =====
-- No part of an organization is left without the part that it belongs to
-- (organization-management.service.ts).
use asset_hub.Prelude.{◌∙◌, refl, Bool}
use asset_hub.Prelude.Text.{Text}
use asset_hub.Prelude.Collection.{All-mono, All-update_one, All-delete_one}
use asset_hub.Prelude.Action.Moves.{Moves, moves_rules, Moves-modify}
use asset_hub.Models.{Db, Company, Plant, Location, Department}
use asset_hub.Database.{
  update_company, update_plant, update_location, update_department,
  delete_department as drop_department,
}
use asset_hub.Access.Scope.{AuthContext}
use asset_hub.Organization.Management.{
  Change, rename_company_to, rename_plant_to, rename_location_to, rename_department_to,
  remove_company, remove_plant, remove_location, remove_department, manage, rename_company,
  rename_plant, rename_location, rename_department, assert_company, assert_plant, assert_location,
  assert_department, update_company_details, update_plant_name, update_location_name,
  update_department_name, delete_company, delete_plant, delete_location, delete_department,
}
use asset_hub.Organization.Deletion.{
  Keeps, Keeps-order, Linked, present-update_one, delete_company_if_empty-Keeps,
  delete_plant_if_empty-Keeps, delete_location_if_empty-Keeps,
}

update_company-Keeps :
    (p : Company → Bool) (n c : Text) → Moves Keeps (update_company p (rename_company n c))
unfolding update_company
update_company-Keeps p n c = Moves-modify _ λ s h. record {
  plants =
      All-mono _ _ s.plants
        (λ x k.
          present-update_one (λ c. c.id) p (rename_company n c) x.company_id s.companies (λ _. refl)
          ∙ k)
        h.plants;
  locations = h.locations;
  departments = h.departments;
}

update_plant-Keeps : (p : Plant → Bool) (n : Text) → Moves Keeps (update_plant p (rename_plant n))
unfolding update_plant
update_plant-Keeps p n = Moves-modify _ λ s h. record {
  plants = All-update_one _ p (rename_plant n) s.plants (λ x e k. k) h.plants;
  locations =
      All-mono _ _ s.locations
        (λ x k.
          present-update_one (λ c. c.id) p (rename_plant n) x.plant_id s.plants (λ _. refl) ∙ k)
        h.locations;
  departments = h.departments;
}

update_location-Keeps :
    (p : Location → Bool) (n : Text) → Moves Keeps (update_location p (rename_location n))
unfolding update_location
update_location-Keeps p n = Moves-modify _ λ s h. record {
  plants = h.plants;
  locations = All-update_one _ p (rename_location n) s.locations (λ x e k. k) h.locations;
  departments =
      All-mono _ _ s.departments
        (λ x k.
          present-update_one (λ c. c.id) p (rename_location n) x.location_id s.locations (λ _. refl)
          ∙ k)
        h.departments;
}

update_department-Keeps :
    (p : Department → Bool) (n : Text) → Moves Keeps (update_department p (rename_department n))
unfolding update_department
update_department-Keeps p n = Moves-modify _ λ s h. record {
  plants = h.plants;
  locations = h.locations;
  departments = All-update_one _ p (rename_department n) s.departments (λ x e k. k) h.departments;
}

drop_department-Keeps : (p : Department → Bool) → Moves Keeps (drop_department p)
unfolding drop_department
drop_department-Keeps p = Moves-modify _ λ s h. record {
  plants = h.plants;
  locations = h.locations;
  departments = All-delete_one _ p s.departments h.departments;
}

managed : (auth : AuthContext) (c : Change) → Moves Keeps (manage auth c)
unfolding manage update_company_details update_plant_name update_location_name
    update_department_name delete_company delete_plant delete_location delete_department
    assert_company assert_plant assert_location assert_department
managed auth (rename_company_to id n k) =
    search (moves_rules, Keeps-order, update_company-Keeps) depth 20
managed auth (rename_plant_to id n) = search (moves_rules, Keeps-order, update_plant-Keeps) depth 20
managed auth (rename_location_to id n) =
    search (moves_rules, Keeps-order, update_location-Keeps) depth 20
managed auth (rename_department_to id n) =
    search (moves_rules, Keeps-order, update_department-Keeps) depth 20
managed auth (remove_company id) =
    search (moves_rules, Keeps-order, delete_company_if_empty-Keeps) depth 20
managed auth (remove_plant id) =
    search (moves_rules, Keeps-order, delete_plant_if_empty-Keeps) depth 20
managed auth (remove_location id) =
    search (moves_rules, Keeps-order, delete_location_if_empty-Keeps) depth 20
managed auth (remove_department id) =
    search (moves_rules, Keeps-order, drop_department-Keeps) depth 20

-- Whatever is renamed or deleted, by anyone and whether the call throws or not, every site keeps its
-- company, every location its site and every department its location.
pub manage-Linked :
    (auth : AuthContext) (c : Change) (db : Db) → Linked db → Linked (manage auth c db).1
manage-Linked auth c db h = (managed auth c).at db h
