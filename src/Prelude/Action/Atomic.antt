-- ===== src/Prelude/Action/Atomic.antt =====
-- Handlers that leave the state alone when they throw.
use mathlib.Core.Path.{◌≡◌, refl, ◌∙◌, subst}
use mathlib.Core.Logic.{◌⊎◌, inl, inr}
use native.Mathlib.Omega.{arith}
use asset_hub.Prelude.Action.{Action, Error, Result, ok, err, ◌>>=◌, continue, atomically}
use asset_hub.Prelude.Action.Moves.{IsPreorder, Moves}

-- The state after a handler that only reads.
abbrev pub Same : {S : Type 0} → S → S → Type 0
Same s s' = s' ≡ s

pub Same-order : {S : Type 0} → IsPreorder (Same {S = S})
Same-order = record { same = λ s. refl; then_also = λ s t u p q. q ∙ p }

pub record Atomic {S A : Type 0} (m : Action S A) : Type 0 where
  pub at : (s : S) (e : Error) → (m s).0 ≡ err e → (m s).1 ≡ s

-- A handler that leaves the state alone when it throws, but for late errors.
pub record AtomicBut {S A : Type 0} (Late : Error → Type 0) (m : Action S A) : Type 0 where
  pub at : (s : S) (e : Error) → (m s).0 ≡ err e → Late e ⊎ ((m s).1 ≡ s)

-- A handler that throws late errors alone.
pub record ThrowsLate {S A : Type 0} (Late : Error → Type 0) (m : Action S A) : Type 0 where
  pub at : (s : S) (e : Error) → (m s).0 ≡ err e → Late e

module _ {S A : Type 0} where
  pub Atomic-atomically : (m : Action S A) → Atomic (atomically m)
  unfolding atomically
  Atomic-atomically m = record { at = λ s e h. go s (m s) e h }
    where
      go :
          (s : S) (r : Result A × S) (e : Error)
          → (atomically (λ _. r) s).0 ≡ err e
          → (atomically (λ _. r) s).1 ≡ s
      go s (ok a, s') e h = absurd (ground arith)
      go s (err e', s') e h = refl

module _ {S A : Type 0} (Late : Error → Type 0) where
  pub AtomicBut-of_Atomic : (m : Action S A) → Atomic m → AtomicBut Late m
  AtomicBut-of_Atomic m k = record { at = λ s e h. inr (k.at s e h) }

  pub AtomicBut-of_Late : (m : Action S A) → ThrowsLate Late m → AtomicBut Late m
  AtomicBut-of_Late m k = record { at = λ s e h. inl (k.at s e h) }

module _ {S A B : Type 0} (Late : Error → Type 0) where
  reads_then :
      (f : A → Action S B)
      → ((a : A) → AtomicBut Late (f a))
      → (s : S) (r : Result A × S) → r.1 ≡ s
      → (e : Error) → (continue f r).0 ≡ err e
      → Late e ⊎ ((continue f r).1 ≡ s)
  reads_then f kf s (ok a, s') h e k = elim ((kf a).at s' e k) [
    | inl late ↦ inl late
    | inr same ↦ inr (same ∙ h)
  ]
  reads_then f kf s (err e', s') h e k = inr h

  -- Reads first, then an atomic rest.
  pub AtomicBut-bind_read :
      (m : Action S A) (f : A → Action S B)
      → Moves Same m
      → ((a : A) → AtomicBut Late (f a))
      → AtomicBut Late (m >>= f)
  unfolding ◌>>=◌
  AtomicBut-bind_read m f km kf = record { at = λ s. reads_then f kf s (m s) (km.at s) }

  rest_then :
      (f : A → Action S B)
      → ((a : A) → ThrowsLate Late (f a))
      → (s : S) (r : Result A × S) → ((e : Error) → r.0 ≡ err e → Late e ⊎ (r.1 ≡ s))
      → (e : Error) → (continue f r).0 ≡ err e
      → Late e ⊎ ((continue f r).1 ≡ s)
  rest_then f kf s (ok a, s') h e k = inl ((kf a).at s' e k)
  rest_then f kf s (err e', s') h e k =
      let one : e' ≡ e = ground arith in
      elim (h e' refl) [ inl late ↦ inl (subst Late one late) | inr same ↦ inr same ]

  -- An atomic part first, then a rest that throws late errors alone.
  pub AtomicBut-bind_throw :
      (m : Action S A) (f : A → Action S B)
      → AtomicBut Late m
      → ((a : A) → ThrowsLate Late (f a))
      → AtomicBut Late (m >>= f)
  unfolding ◌>>=◌
  AtomicBut-bind_throw m f km kf = record { at = λ s. rest_then f kf s (m s) (km.at s) }
