-- ===== src/Transfer/Destination.antt =====
-- Where an asset may be sent (asset-transfer.service.ts, `validateDestination`).
use asset_hub.Prelude.{
  ℕ, ⊤, Option, none, some, Bool, true, false, not, ◌&&◌, ◌==◌, given, if◌then◌else◌,
}
use asset_hub.Prelude.Collection.{find_one}
use asset_hub.Prelude.Action.{
  Action, pure, or_raise, raise_if, gets, ◌>>=◌, ◌>>◌, forbidden, not_found,
}
use asset_hub.Models.{Db, Location}
use asset_hub.Access.Scope.{AuthContext}

infixl 5 ◌>>=?◌
abbrev ◌>>=?◌ : {A B : Type 0} → Option A → (A → Option B) → Option B
none >>=? f = none
some a >>=? f = f a

-- The plant of a location, its business unit, and that unit's company.
unfoldable pub place_company : Db → Location → Option ℕ
place_company db location = find_one (λ p. p.id == location.plant_id) db.plants >>=? λ plant.
    plant.business_unit_id >>=? λ unit.
    find_one (λ b. b.id == unit) db.business_units >>=? λ bu. some bu.company_id

-- `auth.crossCompany ? company.exists(…) : bu.companyId === auth.companyId`
unfoldable pub company_in_reach : AuthContext → Db → Option ℕ → Bool
company_in_reach auth db none = false
company_in_reach auth db (some c) =
    if auth.cross_company
    then given (find_one (λ k. k.id == c && k.tenant_id == auth.tenant_id) db.companies)
    else c == auth.company_id

-- The part for a given location.
unfoldable pub validate_location : AuthContext → ℕ → Option ℕ → Action Db ⊤
validate_location auth location_id department_id = do
  location ←
      or_raise (← gets (λ db. find_one (λ l. l.id == location_id) db.locations))
        (not_found "Destination location not found")
  reached ← gets (λ db. company_in_reach auth db (place_company db location))
  raise_if (not reached) (forbidden "Destination location is outside your scope")
  belongs ← gets (λ db. elim department_id [
    | none ↦ true
    | some d ↦ given (find_one (λ k. k.id == d && k.location_id == location_id) db.departments)
  ])
  raise_if (not belongs)
      (forbidden "Destination department does not belong to the selected location")

-- The part for a department alone.
unfoldable pub validate_department : AuthContext → ℕ → Action Db ⊤
validate_department auth department_id = do
  department ←
      or_raise (← gets (λ db. find_one (λ d. d.id == department_id) db.departments))
        (not_found "Destination department not found")
  reached ← gets (λ db. company_in_reach auth db (
      find_one (λ l. l.id == department.location_id) db.locations >>=? λ location.
      place_company db location))
  raise_if (not reached) (forbidden "Destination department is outside your scope")

unfoldable pub validate_destination : AuthContext → Option ℕ → Option ℕ → Action Db ⊤
validate_destination auth (some location_id) department_id =
    validate_location auth location_id department_id
validate_destination auth none (some department_id) = validate_department auth department_id
validate_destination auth none none = pure tt
