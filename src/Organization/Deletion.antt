-- ===== src/Organization/Deletion.antt =====
-- What it means that every part of an organization has its parent, and that an empty part may go
-- (organization-management.service.ts).
use asset_hub.Prelude.{
  ℕ, ◌≡◌, ◌≢◌, ◌⊎◌, ◌∙◌, refl, Bool, true, false, List, [], ◌∷◌, ◌==◌, given, arith, Bool-cases,
  inl, inr, ltb,
}
use asset_hub.Prelude.Collection.{
  find_one, update_one, delete_one, count_where, All, All-delete_one,
}
use asset_hub.Prelude.Action.{◌>>=◌}
use asset_hub.Prelude.Action.Moves.{IsPreorder, Moves}
use asset_hub.Models.{Db, Company, Plant, Location, Department}
use asset_hub.Database.{
  delete_company as drop_company, delete_plant as drop_plant, delete_location as drop_location,
}
use asset_hub.Access.Scope.{AuthContext}
use asset_hub.Organization.Management.{
  own_company, delete_company_if_empty, delete_plant_if_empty, delete_location_if_empty,
}

module _ {A : Type 0} (key : A → ℕ) where
  -- Some document has the id.
  abbrev pub present : ℕ → List A → Bool
  present k xs = given (find_one (λ x. key x == k) xs)

  pub present-update_one :
      (p : A → Bool) (f : A → A) (k : ℕ) (xs : List A)
      → ((x : A) → key (f x) ≡ key x)
      → present k (update_one p f xs) ≡ present k xs
  present-update_one p f k [] same = refl
  present-update_one p f k (x ∷ xs) same = ground (arith, same x, present-update_one p f k xs same)

  present-delete_one :
      (p : A → Bool) (id k : ℕ) (xs : List A)
      → ((x : A) → p x ≡ true → key x ≡ id)
      → k ≢ id
      → present k (delete_one p xs) ≡ present k xs
  present-delete_one p id k [] only other = refl
  present-delete_one p id k (x ∷ xs) only other = elim (Bool-cases (p x)) [
    | inl e ↦ let at : key x ≡ id = only x e in ground arith
    | inr e ↦ ground (arith, present-delete_one p id k xs only other)
  ]

  unused :
      (id : ℕ) (xs : List A)
      → ltb 0 (count_where (λ x. key x == id) xs) ≡ false
      → All (λ x. key x ≢ id) xs
  unused id [] h = tt
  unused id (x ∷ xs) h = (ground arith, unused id xs (ground arith))

All-both :
    {A : Type 0} (P Q R : A → Type 0) (xs : List A)
    → ((x : A) → P x → Q x → R x)
    → All P xs
    → All Q xs
    → All R xs
All-both P Q R [] f a b = tt
All-both P Q R (x ∷ xs) f a b = (f x a.0 b.0, All-both P Q R xs f a.1 b.1)

-- Every site has its company, every location its site, and every department its location.
pub record Linked (db : Db) : Type 0 where
  pub plants :
      All
        (λ (p : Plant). present (λ (c : Company). c.id) p.company_id db.companies ≡ true)
        db.plants
  pub locations :
      All (λ (l : Location). present (λ (p : Plant). p.id) l.plant_id db.plants ≡ true) db.locations
  pub departments :
      All
        (λ (d : Department). present (λ (l : Location). l.id) d.location_id db.locations ≡ true)
        db.departments

abbrev pub Keeps : Db → Db → Type 0
Keeps s s' = Linked s → Linked s'

pub Keeps-order : IsPreorder Keeps
Keeps-order = record { same = λ s h. h; then_also = λ s t u f g h. g (f h) }

delete_company_if_empty-cases :
    (auth : AuthContext) (id : ℕ) (s : Db)
    → ((delete_company_if_empty auth id s).1 ≡ s)
      ⊎ ((ltb 0 (count_where (λ (p : Plant). p.company_id == id) s.plants) ≡ false)
          × ((delete_company_if_empty auth id s).1
              ≡ record s { companies = delete_one (own_company auth id) s.companies }))
unfolding delete_company_if_empty drop_company ◌>>=◌
delete_company_if_empty-cases auth id s = ground arith

delete_plant_if_empty-cases :
    (id : ℕ) (s : Db)
    → ((delete_plant_if_empty id s).1 ≡ s)
      ⊎ ((ltb 0 (count_where (λ (l : Location). l.plant_id == id) s.locations) ≡ false)
          × ((delete_plant_if_empty id s).1
              ≡ record s { plants = delete_one (λ p. p.id == id) s.plants }))
unfolding delete_plant_if_empty drop_plant ◌>>=◌
delete_plant_if_empty-cases id s = ground arith

delete_location_if_empty-cases :
    (id : ℕ) (s : Db)
    → ((delete_location_if_empty id s).1 ≡ s)
      ⊎ ((ltb 0 (count_where (λ (d : Department). d.location_id == id) s.departments) ≡ false)
          × ((delete_location_if_empty id s).1
              ≡ record s { locations = delete_one (λ l. l.id == id) s.locations }))
unfolding delete_location_if_empty drop_location ◌>>=◌
delete_location_if_empty-cases id s = ground arith

without_company :
    (auth : AuthContext) (id : ℕ) (s : Db)
    → ltb 0 (count_where (λ (p : Plant). p.company_id == id) s.plants) ≡ false
    → Linked s
    → Linked (record s { companies = delete_one (own_company auth id) s.companies })
without_company auth id s e h = record {
  plants =
      All-both _ _ _ s.plants
        (λ x other k.
          present-delete_one (λ c. c.id) (own_company auth id) id x.company_id s.companies
            (λ c q. ground arith) other
          ∙ k)
        (unused (λ p. p.company_id) id s.plants e) h.plants;
  locations = h.locations;
  departments = h.departments;
}

without_plant :
    (id : ℕ) (s : Db)
    → ltb 0 (count_where (λ (l : Location). l.plant_id == id) s.locations) ≡ false
    → Linked s
    → Linked (record s { plants = delete_one (λ p. p.id == id) s.plants })
without_plant id s e h = record {
  plants = All-delete_one _ (λ p. p.id == id) s.plants h.plants;
  locations =
      All-both _ _ _ s.locations
        (λ x other k.
          present-delete_one (λ p. p.id) (λ p. p.id == id) id x.plant_id s.plants
            (λ c q. ground arith) other
          ∙ k)
        (unused (λ l. l.plant_id) id s.locations e) h.locations;
  departments = h.departments;
}

without_location :
    (id : ℕ) (s : Db)
    → ltb 0 (count_where (λ (d : Department). d.location_id == id) s.departments) ≡ false
    → Linked s
    → Linked (record s { locations = delete_one (λ l. l.id == id) s.locations })
without_location id s e h = record {
  plants = h.plants;
  locations = All-delete_one _ (λ l. l.id == id) s.locations h.locations;
  departments =
      All-both _ _ _ s.departments
        (λ x other k.
          present-delete_one (λ l. l.id) (λ l. l.id == id) id x.location_id s.locations
            (λ c q. ground arith) other
          ∙ k)
        (unused (λ d. d.location_id) id s.departments e) h.departments;
}

pub delete_company_if_empty-Keeps :
    (auth : AuthContext) (id : ℕ) → Moves Keeps (delete_company_if_empty auth id)
delete_company_if_empty-Keeps auth id = record {
  at = λ s h. elim (delete_company_if_empty-cases auth id s) [
    | inl same ↦ rw same h
    | inr (e, after) ↦ rw after (without_company auth id s e h)
  ];
}

pub delete_plant_if_empty-Keeps : (id : ℕ) → Moves Keeps (delete_plant_if_empty id)
delete_plant_if_empty-Keeps id = record {
  at = λ s h. elim (delete_plant_if_empty-cases id s) [
    | inl same ↦ rw same h
    | inr (e, after) ↦ rw after (without_plant id s e h)
  ];
}

pub delete_location_if_empty-Keeps : (id : ℕ) → Moves Keeps (delete_location_if_empty id)
delete_location_if_empty-Keeps id = record {
  at = λ s h. elim (delete_location_if_empty-cases id s) [
    | inl same ↦ rw same h
    | inr (e, after) ↦ rw after (without_location id s e h)
  ];
}
