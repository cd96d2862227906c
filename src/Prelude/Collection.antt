-- ===== src/Prelude/Collection.antt =====
-- Collections of documents as lists, with the queries and updates of MongoDB and Prisma that the
-- services call, and the predicates that say what an update left alone.
use Prim.Native.Nat.{ℕ, suc}
use mathlib.Core.Path.{◌≡◌, refl, subst}
use mathlib.Core.Logic.{inl, inr, ◌≢◌}
use mathlib.Core.Bool.{Bool, true}
use mathlib.Core.Option.{Option, none, some}
use mathlib.Core.List.{List, [], ◌∷◌, ◌++◌}
use native.Mathlib.Omega.{arith}
use asset_hub.Prelude.Tests.{◌==◌, if◌then◌else◌, Bool-cases}

module _ {A : Type 0} where
  -- `findOne`: the first document that passes the filter.
  abbrev pub find_one : (A → Bool) → List A → Option A
  find_one p [] = none
  find_one p (x ∷ xs) = if p x then some x else find_one p xs

  -- `find`, with no order.
  abbrev pub find_all : (A → Bool) → List A → List A
  find_all p [] = []
  find_all p (x ∷ xs) = let rest = find_all p xs in if p x then x ∷ rest else rest

  -- `updateOne` and the write of `findOneAndUpdate`: the first match is changed.
  abbrev pub update_one : (A → Bool) → (A → A) → List A → List A
  update_one p f [] = []
  update_one p f (x ∷ xs) = if p x then f x ∷ xs else x ∷ update_one p f xs

  -- `updateMany`: every match is changed.
  abbrev pub update_many : (A → Bool) → (A → A) → List A → List A
  update_many p f [] = []
  update_many p f (x ∷ xs) = (if p x then f x else x) ∷ update_many p f xs

  -- `deleteOne`
  abbrev pub delete_one : (A → Bool) → List A → List A
  delete_one p [] = []
  delete_one p (x ∷ xs) = if p x then xs else x ∷ delete_one p xs

  -- `countDocuments`
  abbrev pub count_where : (A → Bool) → List A → ℕ
  count_where p [] = 0
  count_where p (x ∷ xs) = let n = count_where p xs in if p x then suc n else n

  abbrev pub All : (A → Type 0) → List A → Type 0
  All P [] = Unit
  All P (x ∷ xs) = P x × All P xs

  -- The two lists hold related documents at the same places, and the second has new ones behind.
  abbrev pub Evolves : (A → A → Type 0) → (A → Type 0) → List A → List A → Type 0
  Evolves R New [] ys = All New ys
  Evolves R New (x ∷ xs) [] = ⊥
  Evolves R New (x ∷ xs) (y ∷ ys) = R x y × Evolves R New xs ys

  pub find_one_sound : (p : A → Bool) (xs : List A) (x : A) → find_one p xs ≡ some x → p x ≡ true
  find_one_sound p [] x h = cc
  find_one_sound p (y ∷ ys) x h = ground (arith, find_one_sound p ys x)

  pub All-find_one :
      (P : A → Type 0) (p : A → Bool) (xs : List A) (x : A)
      → All P xs
      → find_one p xs ≡ some x
      → P x
  All-find_one P p [] x a h = cc
  All-find_one P p (y ∷ ys) x a h = elim (Bool-cases (p y)) [
    | inl e ↦ let same : y ≡ x = ground arith in subst P same a.0
    | inr e ↦ All-find_one P p ys x a.1 (rw e at h)
  ]

  pub All-append : (P : A → Type 0) (xs ys : List A) → All P xs → All P ys → All P (xs ++ ys)
  All-append P [] ys a b = b
  All-append P (x ∷ xs) ys a b = (a.0, All-append P xs ys a.1 b)

  pub All-update_one :
      (P : A → Type 0) (p : A → Bool) (f : A → A) (xs : List A)
      → ((x : A) → p x ≡ true → P x → P (f x))
      → All P xs
      → All P (update_one p f xs)
  All-update_one P p f [] keep a = tt
  All-update_one P p f (x ∷ xs) keep a = elim (Bool-cases (p x)) [
    | inl e ↦ rw e (keep x e a.0, a.1)
    | inr e ↦ rw e (a.0, All-update_one P p f xs keep a.1)
  ]

  pub All-update_many :
      (P : A → Type 0) (p : A → Bool) (f : A → A) (xs : List A)
      → ((x : A) → p x ≡ true → P x → P (f x))
      → All P xs
      → All P (update_many p f xs)
  All-update_many P p f [] keep a = tt
  All-update_many P p f (x ∷ xs) keep a = elim (Bool-cases (p x)) [
    | inl e ↦ rw e (keep x e a.0, All-update_many P p f xs keep a.1)
    | inr e ↦ rw e (a.0, All-update_many P p f xs keep a.1)
  ]

  pub All-delete_one :
      (P : A → Type 0) (p : A → Bool) (xs : List A) → All P xs → All P (delete_one p xs)
  All-delete_one P p [] a = tt
  All-delete_one P p (x ∷ xs) a = elim (Bool-cases (p x)) [
    | inl e ↦ rw e a.1
    | inr e ↦ rw e (a.0, All-delete_one P p xs a.1)
  ]

  pub All-mono : (P Q : A → Type 0) (xs : List A) → ((x : A) → P x → Q x) → All P xs → All Q xs
  All-mono P Q [] f a = tt
  All-mono P Q (x ∷ xs) f a = (f x a.0, All-mono P Q xs f a.1)

  -- No two documents have the same key.
  abbrev pub Distinct : (A → ℕ) → List A → Type 0
  Distinct key [] = Unit
  Distinct key (x ∷ xs) = All (λ y. key y ≢ key x) xs × Distinct key xs

  -- A document that was found, and was then changed by its key, is found changed.
  pub find_one-update_one :
      (p : A → Bool) (key : A → ℕ) (f : A → A) (xs : List A) (x : A)
      → Distinct key xs
      → p (f x) ≡ true
      → find_one p xs ≡ some x
      → find_one p (update_one (λ y. key y == key x) f xs) ≡ some (f x)
  find_one-update_one p key f [] x d k h = cc
  find_one-update_one p key f (y ∷ ys) x d k h = elim (Bool-cases (p y)) [
    | inl e ↦ let same : y ≡ x = ground arith in ground arith
    | inr e ↦
        let later : find_one p ys ≡ some x = ground arith in
        let other : key x ≢ key y = All-find_one (λ z. key z ≢ key y) p ys x d.0 later in
        ground (arith, find_one-update_one p key f ys x d.1 k later)
  ]

  pub find_one-append :
      (p : A → Bool) (xs ys : List A) (x : A)
      → find_one p xs ≡ some x
      → find_one p (xs ++ ys) ≡ some x
  find_one-append p [] ys x h = cc
  find_one-append p (y ∷ xs) ys x h = ground (arith, find_one-append p xs ys x)

  pub find_one-append_none :
      (p : A → Bool) (xs ys : List A) → find_one p xs ≡ none → find_one p (xs ++ ys) ≡ find_one p ys
  find_one-append_none p [] ys h = refl
  find_one-append_none p (y ∷ xs) ys h = ground (arith, find_one-append_none p xs ys)

  -- A new document is found by what tells it from the old ones.
  pub find_one-append_new :
      (p : A → Bool) (xs : List A) (x : A)
      → find_one p xs ≡ none
      → p x ≡ true
      → find_one p (xs ++ x ∷ []) ≡ some x
  find_one-append_new p xs x absent new = rw (find_one-append_none p xs (x ∷ []) absent, new) refl

module _ {A : Type 0} (R : A → A → Type 0) (New : A → Type 0) where
  module _ (R_refl : (x : A) → R x x) where
    pub Evolves-refl : (xs : List A) → Evolves R New xs xs
    Evolves-refl [] = tt
    Evolves-refl (x ∷ xs) = (R_refl x, Evolves-refl xs)

    pub Evolves-append : (xs ys : List A) → All New ys → Evolves R New xs (xs ++ ys)
    Evolves-append [] ys a = a
    Evolves-append (x ∷ xs) ys a = (R_refl x, Evolves-append xs ys a)

    pub Evolves-update_one :
        (p : A → Bool) (f : A → A) (xs : List A)
        → ((x : A) → p x ≡ true → R x (f x))
        → Evolves R New xs (update_one p f xs)
    Evolves-update_one p f [] keep = tt
    Evolves-update_one p f (x ∷ xs) keep = elim (Bool-cases (p x)) [
      | inl e ↦ rw e (keep x e, Evolves-refl xs)
      | inr e ↦ rw e (R_refl x, Evolves-update_one p f xs keep)
    ]

    pub Evolves-update_many :
        (p : A → Bool) (f : A → A) (xs : List A)
        → ((x : A) → p x ≡ true → R x (f x))
        → Evolves R New xs (update_many p f xs)
    Evolves-update_many p f [] keep = tt
    Evolves-update_many p f (x ∷ xs) keep = elim (Bool-cases (p x)) [
      | inl e ↦ rw e (keep x e, Evolves-update_many p f xs keep)
      | inr e ↦ rw e (R_refl x, Evolves-update_many p f xs keep)
    ]

  pub Evolves-trans :
      ((x y z : A) → R x y → R y z → R x z)
      → ((x y : A) → New x → R x y → New y)
      → (xs ys zs : List A) → Evolves R New xs ys
      → Evolves R New ys zs
      → Evolves R New xs zs
  Evolves-trans tr nw [] [] zs a b = b
  Evolves-trans tr nw [] (y ∷ ys) [] a b = absurd b
  Evolves-trans tr nw [] (y ∷ ys) (z ∷ zs) a b =
      (nw y z a.0 b.0, Evolves-trans tr nw [] ys zs a.1 b.1)
  Evolves-trans tr nw (x ∷ xs) [] zs a b = absurd a
  Evolves-trans tr nw (x ∷ xs) (y ∷ ys) [] a b = absurd b
  Evolves-trans tr nw (x ∷ xs) (y ∷ ys) (z ∷ zs) a b =
      (tr x y z a.0 b.0, Evolves-trans tr nw xs ys zs a.1 b.1)
