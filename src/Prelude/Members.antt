-- ===== src/Prelude/Members.antt =====
-- Lists of ids without repetition: a list that lies in another is no longer than it, and reaches all
-- of it where the two are as long.
use Prim.Native.Nat.{ℕ, suc, ◌≤◌}
use mathlib.Core.Path.{◌≡◌}
use mathlib.Core.Logic.{inl, inr, ◌≢◌}
use mathlib.Core.Bool.{Bool, true, false, ◌&&◌}
use mathlib.Core.List.{List, [], ◌∷◌}
use native.Mathlib.Omega.{arith}
use asset_hub.Prelude.Tests.{◌==◌, Bool-cases}
use asset_hub.Prelude.Lists.{length, any}
use asset_hub.Prelude.Collection.{All, Distinct, find_all, delete_one}

-- `ids.includes(i)`
abbrev pub has : ℕ → List ℕ → Bool
has i = any (λ j. j == i)

has-delete_one :
    (i k : ℕ) (ids : List ℕ)
    → k ≢ i
    → has k ids ≡ true
    → has k (delete_one (λ j. j == i) ids) ≡ true
has-delete_one i k [] n h = h
has-delete_one i k (j ∷ ids) n h = ground (arith, has-delete_one i k ids n)

length-delete_one :
    (i : ℕ) (ids : List ℕ)
    → has i ids ≡ true
    → length ids ≡ suc (length (delete_one (λ j. j == i) ids))
length-delete_one i [] h = cc
length-delete_one i (j ∷ ids) h = ground (arith, length-delete_one i ids)

module _ {A : Type 0} (key : A → ℕ) where
  kept_members :
      (i : ℕ) (xs : List A) (ids : List ℕ)
      → All (λ x. key x ≢ i) xs
      → All (λ x. has (key x) ids ≡ true) xs
      → All (λ x. has (key x) (delete_one (λ j. j == i) ids) ≡ true) xs
  kept_members i [] ids n a = tt
  kept_members i (x ∷ xs) ids n a =
      (has-delete_one i (key x) ids n.0 a.0, kept_members i xs ids n.1 a.1)

  -- Documents of different ids among the given ones are not more than these.
  pub Distinct-length :
      (xs : List A) (ids : List ℕ)
      → Distinct key xs
      → All (λ x. has (key x) ids ≡ true) xs
      → length xs ≤ length ids
  Distinct-length [] ids d a = omega arith
  Distinct-length (x ∷ xs) ids d a =
      let shorter =
        Distinct-length xs (delete_one (λ j. j == key x) ids) d.1
          (kept_members (key x) xs ids d.0 a.1) in
      omega (arith, length-delete_one (key x) ids a.0, shorter)

  absent_everywhere :
      (i : ℕ) (xs : List A) → any (λ x. key x == i) xs ≡ false → All (λ x. key x ≢ i) xs
  absent_everywhere i [] h = tt
  absent_everywhere i (x ∷ xs) h = (ground arith, absent_everywhere i xs (ground arith))

  -- Where they are as many, each id is that of one of them.
  pub Distinct-covers :
      (xs : List A) (ids : List ℕ) (i : ℕ)
      → Distinct key xs
      → All (λ x. has (key x) ids ≡ true) xs
      → length xs ≡ length ids
      → has i ids ≡ true
      → any (λ x. key x == i) xs ≡ true
  Distinct-covers xs ids i d a e h = elim (Bool-cases (any (λ x. key x == i) xs)) [
    | inl y ↦ y
    | inr n ↦
        let others = absent_everywhere i xs n in
        let shorter =
          Distinct-length xs (delete_one (λ j. j == i) ids) d (kept_members i xs ids others a) in
        absurd (omega (arith, length-delete_one i ids h, shorter, e))
  ]

module _ {A : Type 0} (key : A → ℕ) (p : A → Bool) where
  All-selected : (Q : A → Type 0) (xs : List A) → All Q xs → All Q (find_all p xs)
  All-selected Q [] a = tt
  All-selected Q (x ∷ xs) a = elim (Bool-cases (p x)) [
    | inl e ↦ rw e (a.0, All-selected Q xs a.1)
    | inr e ↦ rw e (All-selected Q xs a.1)
  ]

  pub Distinct-find_all : (xs : List A) → Distinct key xs → Distinct key (find_all p xs)
  Distinct-find_all [] d = tt
  Distinct-find_all (x ∷ xs) d = elim (Bool-cases (p x)) [
    | inl e ↦ rw e (All-selected (λ y. key y ≢ key x) xs d.0, Distinct-find_all xs d.1)
    | inr e ↦ rw e (Distinct-find_all xs d.1)
  ]

-- One query for many ids found as many documents as it was asked for: then it found each, if the ids
-- of the documents are distinct.
pub found_all :
    {A : Type 0} (key : A → ℕ) (p : A → Bool) (ids : List ℕ) (xs : List A)
    → Distinct key xs
    → length (find_all (λ x. has (key x) ids && p x) xs) ≡ length ids
    → (i : ℕ) → has i ids ≡ true
    → any (λ x. key x == i && p x) xs ≡ true
found_all {A} key p ids xs d e i h = any_selected xs (
    Distinct-covers key (find_all (λ x. has (key x) ids && p x) xs) ids i
      (Distinct-find_all key (λ x. has (key x) ids && p x) xs d) (members xs) e h)
  where
    members :
        (ys : List A)
        → All (λ x. has (key x) ids ≡ true) (find_all (λ x. has (key x) ids && p x) ys)
    members [] = tt
    members (y ∷ ys) = elim (Bool-cases (has (key y) ids && p y)) [
      | inl t ↦ rw t (ground arith, members ys)
      | inr f ↦ rw f (members ys)
    ]

    any_selected :
        (ys : List A)
        → any (λ x. key x == i) (find_all (λ x. has (key x) ids && p x) ys) ≡ true
        → any (λ x. key x == i && p x) ys ≡ true
    any_selected [] t = t
    any_selected (y ∷ ys) t = ground (arith, any_selected ys)

All-sublist :
    (P : ℕ → Type 0) (ids js : List ℕ)
    → ((i : ℕ) → has i ids ≡ true → P i)
    → ((i : ℕ) → has i js ≡ true → has i ids ≡ true)
    → All P js
All-sublist P ids [] f sub = tt
All-sublist P ids (j ∷ js) f sub =
    (f j (sub j (ground arith)), All-sublist P ids js f (λ i h. sub i (ground arith)))

pub All-has : (P : ℕ → Type 0) (ids : List ℕ) → ((i : ℕ) → has i ids ≡ true → P i) → All P ids
All-has P ids f = All-sublist P ids ids f (λ i h. h)
