-- ===== src/Tenancy/Placement.antt =====
-- Where in an organization a caller can create something (tenancy.service.ts).
use asset_hub.Prelude.{
  ℕ, ⊤, ◌≡◌, refl, Option, none, some, Bool, true, ◌||◌, ◌==◌, arith, Option-cases, inl, inr,
}
use asset_hub.Prelude.Text.{Text}
use asset_hub.Prelude.Collection.{find_one, find_one-append_new}
use asset_hub.Prelude.Action.{Action, pure, ok, ◌>>=◌}
use asset_hub.Models.{BusinessUnit, Location, Department}
use asset_hub.Access.Scope.{AuthContext}
use asset_hub.Tenancy.Directory.{
  Directory, Site, require, insert_unit, insert_site, insert_location, insert_department,
}
use asset_hub.Tenancy.Creation.{
  unit_at, site_at, location_at, create_business_unit, create_plant, create_location,
  create_department, assert_company_in_scope,
}

-- What a new part is created in: a company, a business unit, a plant or a location.
pub data Parent : Type 0 where
  in_company in_unit in_site in_location : ℕ → Parent

unfoldable pub create : AuthContext → Parent → Text → ℕ → Action Directory ⊤
create auth (in_company id) name new_id = create_business_unit auth id name new_id >>= λ _. pure tt
create auth (in_unit id) name new_id = create_plant auth id name new_id >>= λ _. pure tt
create auth (in_site id) name new_id = create_location auth id name new_id >>= λ _. pure tt
create auth (in_location id) name new_id = create_department auth id name new_id >>= λ _. pure tt

-- The company that a business unit, a plant, a location or a department lies in.
abbrev unit_home : ℕ → Directory → Option ℕ
unit_home id d = elim (unit_at id d) [ none ↦ none | some u ↦ some u.company_id ]

abbrev site_home : ℕ → Directory → Option ℕ
site_home id d = elim (site_at id d) [ none ↦ none | some p ↦ unit_home p.business_unit_id d ]

abbrev location_home : ℕ → Directory → Option ℕ
location_home id d = elim (location_at id d) [ none ↦ none | some l ↦ site_home l.plant_id d ]

abbrev department_home : ℕ → Directory → Option ℕ
department_home id d = elim (find_one (λ x. x.id == id) d.departments) [
  | none ↦ none
  | some x ↦ location_home x.location_id d
]

abbrev pub home : Parent → Directory → Option ℕ
home (in_company id) d = some id
home (in_unit id) d = unit_home id d
home (in_site id) d = site_home id d
home (in_location id) d = location_home id d

-- The same of what is created in it, and that its id is new.
abbrev pub home_of_new : Parent → ℕ → Directory → Option ℕ
home_of_new (in_company _) id d = unit_home id d
home_of_new (in_unit _) id d = site_home id d
home_of_new (in_site _) id d = location_home id d
home_of_new (in_location _) id d = department_home id d

abbrev pub Unused : Parent → ℕ → Directory → Type 0
Unused (in_company _) id d = unit_at id d ≡ none
Unused (in_unit _) id d = site_at id d ≡ none
Unused (in_site _) id d = location_at id d ≡ none
Unused (in_location _) id d = find_one (λ (x : Department). x.id == id) d.departments ≡ none

-- The caller's company, or any company for a caller of the whole tenant.
abbrev pub may_create_in : AuthContext → ℕ → Bool
may_create_in auth company_id = auth.cross_company || auth.company_id == company_id

-- A part that is created lies in the company that its parent lies in, and the caller may create there:
-- it is the caller's own company, unless the caller has the scope of the tenant.
pub create-places :
    (auth : AuthContext) (parent : Parent) (name : Text) (new_id : ℕ) (d d' : Directory) (r : ⊤)
    → Unused parent new_id d
    → create auth parent name new_id d ≡ (ok r, d')
    → (c : ℕ) × (home parent d ≡ some c)
      × (may_create_in auth c ≡ true)
      × (home_of_new parent new_id d' ≡ some c)
unfolding create create_business_unit create_plant create_location create_department
    assert_company_in_scope insert_unit insert_site insert_location insert_department require ◌>>=◌
create-places auth (in_company id) name new_id d d' r unused h =
    let unit : BusinessUnit = record { id = new_id; company_id = id; name = name } in
    let found = find_one-append_new (λ u. u.id == new_id) d.units unit unused (ground arith) in
    (id, refl, ground arith, ground (arith, found))
create-places auth (in_unit id) name new_id d d' r unused h =
    let site : Site = record { id = new_id; business_unit_id = id; name = name } in
    let found = find_one-append_new (λ p. p.id == new_id) d.sites site unused (ground arith) in
    elim (Option-cases (unit_at id d)) [
      | inl e ↦ absurd (ground arith)
      | inr (u, e) ↦ (u.company_id, ground arith, ground arith, ground (arith, found))
    ]
create-places auth (in_site id) name new_id d d' r unused h =
    let location : Location = record { id = new_id; plant_id = id; name = name } in
    let found =
      find_one-append_new (λ l. l.id == new_id) d.locations location unused (ground arith) in
    elim (Option-cases (site_at id d)) [
      | inl e ↦ absurd (ground arith)
      | inr (p, e) ↦ elim (Option-cases (unit_at p.business_unit_id d)) [
        | inl e' ↦ absurd (ground arith)
        | inr (u, e') ↦ (u.company_id, ground arith, ground arith, ground (arith, found))
      ]
    ]
create-places auth (in_location id) name new_id d d' r unused h =
    let department : Department = record { id = new_id; location_id = id; name = name } in
    let found =
      find_one-append_new (λ x. x.id == new_id) d.departments department unused (ground arith) in
    elim (Option-cases (location_at id d)) [
      | inl e ↦ absurd (ground arith)
      | inr (l, e) ↦ elim (Option-cases (site_at l.plant_id d)) [
        | inl e' ↦ absurd (ground arith)
        | inr (p, e') ↦ elim (Option-cases (unit_at p.business_unit_id d)) [
          | inl e'' ↦ absurd (ground arith)
          | inr (u, e'') ↦ (u.company_id, ground arith, ground arith, ground (arith, found))
        ]
      ]
    ]
