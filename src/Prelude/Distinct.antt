-- ===== src/Prelude/Distinct.antt =====
-- Documents with distinct ids, under the updates of a collection.
use Prim.Native.Nat.{ℕ}
use mathlib.Core.Path.{◌≡◌, sym}
use mathlib.Core.Logic.{inl, inr, ◌≢◌}
use mathlib.Core.Bool.{Bool}
use mathlib.Core.List.{List, [], ◌∷◌, ◌++◌}
use mathlib.Core.Option.{some}
use native.Mathlib.Omega.{arith}
use asset_hub.Prelude.Tests.{◌==◌, Bool-cases, if◌then◌else◌}
use asset_hub.Prelude.Collection.{
  All, All-update_one, All-append, All-find_one, update_one, find_one, Distinct,
}

module _ {A : Type 0} (key : A → ℕ) where
  pub Distinct-update_one :
      (p : A → Bool) (f : A → A) (xs : List A)
      → ((x : A) → key (f x) ≡ key x)
      → Distinct key xs
      → Distinct key (update_one p f xs)
  Distinct-update_one p f [] same d = tt
  Distinct-update_one p f (x ∷ xs) same d = elim (Bool-cases (p x)) [
    | inl e ↦ rw (e, same x) d
    | inr e ↦ rw e (
      All-update_one (λ y. key y ≢ key x) p f xs (λ y k n. rw (same y) n) d.0,
      Distinct-update_one p f xs same d.1,
    )
  ]

  pub Distinct-append :
      (xs : List A) (x : A)
      → Distinct key xs
      → All (λ y. key y ≢ key x) xs
      → Distinct key (xs ++ x ∷ [])
  Distinct-append [] x d a = (tt, tt)
  Distinct-append (y ∷ ys) x d a = (
    All-append (λ z. key z ≢ key y) ys (x ∷ []) d.0 ((λ h. a.0 (sym h)), tt),
    Distinct-append ys x d.1 a.1,
  )

  -- Two documents that were found and have the same id are the same.
  pub Distinct-same :
      (p q : A → Bool) (xs : List A) (x y : A)
      → Distinct key xs
      → find_one p xs ≡ some x
      → find_one q xs ≡ some y
      → key x ≡ key y
      → x ≡ y
  Distinct-same p q [] x y d h k e = cc
  Distinct-same p q (z ∷ zs) x y d h k e = elim (Bool-cases (p z)) [
    | inl t ↦ elim (Bool-cases (q z)) [
      | inl u ↦ ground arith
      | inr u ↦
          let later : find_one q zs ≡ some y = ground arith in
          let same : z ≡ x = ground arith in
          absurd (All-find_one (λ w. key w ≢ key z) q zs y d.0 later (rw same (sym e)))
    ]
    | inr t ↦
        let later : find_one p zs ≡ some x = ground arith in
        elim (Bool-cases (q z)) [
          | inl u ↦
              let same : z ≡ y = ground arith in
              absurd (All-find_one (λ w. key w ≢ key z) p zs x d.0 later (rw same e))
          | inr u ↦ Distinct-same p q zs x y d.1 later (ground arith) e
        ]
  ]

  -- What is found after an update by id that the filter does not look at.
  pub find_one-update_id :
      (p : A → Bool) (f : A → A) (k : ℕ) (xs : List A) (x : A)
      → Distinct key xs
      → ((y : A) → p (f y) ≡ p y)
      → find_one p xs ≡ some x
      → find_one p (update_one (λ y. key y == k) f xs) ≡ some (if key x == k then f x else x)
  find_one-update_id p f k [] x d same h = cc
  find_one-update_id p f k (y ∷ ys) x d same h = elim (Bool-cases (p y)) [
    | inl e ↦ ground (arith, same y)
    | inr e ↦
        let later : find_one p ys ≡ some x = ground arith in
        let other : key x ≢ key y = All-find_one (λ z. key z ≢ key y) p ys x d.0 later in
        ground (arith, find_one-update_id p f k ys x d.1 same later, same y)
  ]
