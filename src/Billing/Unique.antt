-- ===== src/Billing/Unique.antt =====
-- A document that a filter finds once: changed, deleted or created (the writes of
-- system-entitlement.controller.ts).
use asset_hub.Prelude.{
  ◌≡◌, ◌≤◌, refl, none, some, Bool, true, List, [], ◌∷◌, ◌++◌, arith, Bool-cases, inl, inr,
}
use asset_hub.Prelude.Collection.{find_one, update_one, delete_one, count_where}

module _ {A : Type 0} (p : A → Bool) (f : A → A)
    (keeps : (x : A) → p x ≡ true → p (f x) ≡ true) where
  pub find-update :
      (xs : List A) (x : A) → find_one p xs ≡ some x → find_one p (update_one p f xs) ≡ some (f x)
  find-update [] x h = cc
  find-update (y ∷ ys) x h = elim (Bool-cases (p y)) [
    | inl e ↦ ground (arith, keeps y e)
    | inr e ↦ ground (arith, find-update ys x)
  ]

  pub count-update : (xs : List A) → count_where p (update_one p f xs) ≡ count_where p xs
  count-update [] = refl
  count-update (y ∷ ys) = elim (Bool-cases (p y)) [
    | inl e ↦ ground (arith, keeps y e)
    | inr e ↦ ground (arith, count-update ys)
  ]

module _ {A : Type 0} (p : A → Bool) where
  pub find-count : (xs : List A) → count_where p xs ≤ 0 → find_one p xs ≡ none
  find-count [] h = refl
  find-count (y ∷ ys) h = ground (arith, find-count ys)

  pub find-delete : (xs : List A) → count_where p xs ≤ 1 → find_one p (delete_one p xs) ≡ none
  find-delete [] h = refl
  find-delete (y ∷ ys) h = elim (Bool-cases (p y)) [
    | inl e ↦ ground (arith, find-count ys)
    | inr e ↦ ground (arith, find-delete ys)
  ]

  pub count-append :
      (xs : List A) (x : A) → find_one p xs ≡ none → p x ≡ true → count_where p (xs ++ x ∷ []) ≤ 1
  count-append [] x h k = ground arith
  count-append (y ∷ ys) x h k = ground (arith, count-append ys x)
