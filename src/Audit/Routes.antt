-- ===== src/Audit/Routes.antt =====
-- The names of actions that the interceptor makes of routes (audit.interceptor.ts, `normalizeRoute`).
use asset_hub.Prelude.{
  ℕ, ◌≡◌, refl, Bool, true, false, ◌&&◌, [], ◌∷◌, arith, Bool-cases, inl, inr, if◌then◌else◌,
}
use asset_hub.Prelude.Text.{Text, text_eq, to_lower, codes}
use asset_hub.Prelude.Collection.{All}
use asset_hub.Audit.Naming.{
  is_separator, is_dot, runs_to_dot, without_last_dots, normalize_route, drop_while, is_slash,
  without_prefix,
}

-- No dot at the end, no two in a row, and no separator: segments between single dots.
abbrev pub Segmented : Text → Type 0
Segmented [] = Unit
Segmented (c ∷ []) = (is_separator c ≡ false) × (is_dot c ≡ false)
Segmented (c ∷ d ∷ s) =
    (is_separator c ≡ false) × (is_dot c && is_dot d ≡ false) × Segmented (d ∷ s)

-- The same without the condition on the end.
abbrev Apart : Text → Type 0
Apart [] = Unit
Apart (c ∷ []) = is_separator c ≡ false
Apart (c ∷ d ∷ s) = (is_separator c ≡ false) × (is_dot c && is_dot d ≡ false) × Apart (d ∷ s)

abbrev Plain : Text → Type 0
Plain = All (λ c. is_separator c ≡ false)

runs-Plain : (within : Bool) (s : Text) → Plain (runs_to_dot is_separator within s)
unfolding runs_to_dot
runs-Plain within [] = tt
runs-Plain true (c ∷ s) = elim (Bool-cases (is_separator c)) [
  | inl e ↦ rw e (runs-Plain true s)
  | inr e ↦ rw e (e, runs-Plain false s)
]
runs-Plain false (c ∷ s) = elim (Bool-cases (is_separator c)) [
  | inl e ↦ rw e (refl, runs-Plain true s)
  | inr e ↦ rw e (e, runs-Plain false s)
]

-- What follows a run of dots does not begin with one.
abbrev NoDot : Text → Type 0
NoDot [] = Unit
NoDot (c ∷ s) = is_dot c ≡ false

runs-NoDot : (s : Text) → NoDot (runs_to_dot is_dot true s)
unfolding runs_to_dot
runs-NoDot [] = tt
runs-NoDot (c ∷ s) = elim (Bool-cases (is_dot c)) [ inl e ↦ rw e (runs-NoDot s) | inr e ↦ rw e e ]

Apart-dot : (s : Text) → NoDot s → Apart s → Apart (b'.' ∷ s)
Apart-dot [] n a = refl
Apart-dot (c ∷ s) n a = (refl, ground arith, a)

Apart-other :
    (c : ℕ) (s : Text) → is_separator c ≡ false → is_dot c ≡ false → Apart s → Apart (c ∷ s)
Apart-other c [] e f a = e
Apart-other c (d ∷ s) e f a = (e, ground arith, a)

runs-Apart : (within : Bool) (s : Text) → Plain s → Apart (runs_to_dot is_dot within s)
unfolding runs_to_dot
runs-Apart within [] p = tt
runs-Apart true (c ∷ s) p = elim (Bool-cases (is_dot c)) [
  | inl e ↦ rw e (runs-Apart true s p.1)
  | inr e ↦ rw e (Apart-other c _ p.0 e (runs-Apart false s p.1))
]
runs-Apart false (c ∷ s) p = elim (Bool-cases (is_dot c)) [
  | inl e ↦ rw e (Apart-dot _ (runs-NoDot s) (runs-Apart true s p.1))
  | inr e ↦ rw e (Apart-other c _ p.0 e (runs-Apart false s p.1))
]

abbrev Follows : ℕ → Text → Type 0
Follows c [] = Unit
Follows c (d ∷ s) = is_dot c && is_dot d ≡ false

Follows-if :
    (b : Bool) (c d : ℕ) (s : Text)
    → (is_dot c && is_dot d ≡ false)
    → Follows c (if b then [] else d ∷ s)
Follows-if true c d s f = tt
Follows-if false c d s f = f

Follows-last : (c : ℕ) (s : Text) → Follows c s → Follows c (without_last_dots s)
unfolding without_last_dots
Follows-last c [] f = tt
Follows-last c (d ∷ s) f = Follows-if _ c d _ f

if-Segmented :
    (c : ℕ) (s : Text)
    → is_separator c ≡ false
    → Follows c s
    → Segmented s
    → Segmented (if is_dot c && text_eq s [] then [] else c ∷ s)
if-Segmented c [] e f a = elim (Bool-cases (is_dot c)) [ inl t ↦ rw t tt | inr t ↦ rw t (e, t) ]
if-Segmented c (d ∷ s) e f a = elim (Bool-cases (is_dot c)) [
  | inl t ↦ rw t (e, f, a)
  | inr t ↦ rw t (e, f, a)
]

last-Segmented : (s : Text) → Apart s → Segmented (without_last_dots s)
unfolding without_last_dots
last-Segmented [] a = tt
last-Segmented (c ∷ []) a = if-Segmented c [] a tt tt
last-Segmented (c ∷ d ∷ s) a =
    if-Segmented c (without_last_dots (d ∷ s)) a.0 (Follows-last c (d ∷ s) a.1)
      (last-Segmented (d ∷ s) a.2)

lower-Segmented : (s : Text) → Segmented s → Segmented (to_lower s)
unfolding to_lower
lower-Segmented [] a = tt
lower-Segmented (c ∷ []) a = ground arith
lower-Segmented (c ∷ d ∷ s) a = (ground arith, ground arith, lower-Segmented (d ∷ s) a.2)

-- The name that is made of any route consists of segments without slashes and colons, with one dot between
-- two and none at the end.
pub normalize_route-Segmented : (route : Text) → Segmented (normalize_route route)
unfolding normalize_route
normalize_route-Segmented route =
    let start = without_prefix (codes "api/v1/") (drop_while is_slash route) in
    let plain = runs_to_dot is_separator false start in
    let apart = runs_to_dot is_dot false plain in
    lower-Segmented (without_last_dots apart)
      (last-Segmented apart (runs-Apart false plain (runs-Plain false start)))
