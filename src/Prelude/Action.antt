-- ===== src/Prelude/Action.antt =====
-- Handlers: state passing with exceptions. What was written before a throw stays written, so the
-- state comes back beside the error too; `atomically` is a database transaction, which rolls back.
pub mod Moves
pub mod Atomic
use Prim.Native.String.{String}
use mathlib.Core.Path.{◌≡◌, refl}
use mathlib.Core.Bool.{Bool}
use native.Mathlib.Omega.{arith}
use mathlib.Core.Option.{Option, none, some}
use asset_hub.Prelude.Tests.{⊤, if◌then◌else◌}

-- The exceptions of @nestjs/common by their class, with the message; `failure` is a plain `Error`,
-- or the exception of a database call that throws when it finds no row.
pub data Error : Type 0 where
  bad_request unauthorized forbidden not_found conflict unavailable failure : String → Error

pub data Result (A : Type 0) : Type 0 where
  ok : A → Result A
  err : Error → Result A

abbrev pub Action : Type 0 → Type 0 → Type 0
Action S A = S → Result A × S

module _ {S A : Type 0} where
  unfoldable pub pure : A → Action S A
  pure a s = (ok a, s)

  unfoldable pub raise : Error → Action S A
  raise e s = (err e, s)

  unfoldable pub gets : (S → A) → Action S A
  gets f s = (ok (f s), s)

  unfoldable pub or_raise : Option A → Error → Action S A
  or_raise none e s = (err e, s)
  or_raise (some a) e s = (ok a, s)

  abbrev restore : S → Result A × S → Result A × S
  restore s (ok a, s') = (ok a, s')
  restore s (err e, s') = (err e, s)

  -- A transaction: a throw inside restores the state in which it began.
  unfoldable pub atomically : Action S A → Action S A
  atomically m s = restore s (m s)

module _ {S : Type 0} where
  unfoldable pub modify : (S → S) → Action S ⊤
  modify f s = (ok tt, f s)

  -- `if (c) throw e`
  unfoldable pub raise_if : Bool → Error → Action S ⊤
  raise_if c e s = (if c then err e else ok tt, s)

  -- A call that returns, or throws the given error.
  unfoldable pub raise_given : Option Error → Action S ⊤
  raise_given none s = (ok tt, s)
  raise_given (some e) s = (err e, s)

module _ {S A B : Type 0} where
  abbrev pub continue : (A → Action S B) → Result A × S → Result B × S
  continue f (ok a, s) = f a s
  continue f (err e, s) = (err e, s)

  infixl 5 ◌>>=◌ ◌>>◌
  -- Opening this opens the other combinators too.
  unfoldable pub ◌>>=◌ : Action S A → (A → Action S B) → Action S B
  unfolding pure raise gets or_raise modify raise_if raise_given atomically
  ◌>>=◌ m f s = continue f (m s)

  abbrev pub ◌>>◌ : Action S A → Action S B → Action S B
  m >> k = m >>= λ _. k

  -- A handler that returned has had its first part return.
  pub >>=-eq-ok :
      (m : Action S A) (f : A → Action S B) (s s' : S) (b : B)
      → (m >>= f) s ≡ (ok b, s')
      → (a : A) × (t : S) × (m s ≡ (ok a, t)) × (f a t ≡ (ok b, s'))
  unfolding ◌>>=◌
  >>=-eq-ok m f s s' b h = go (m s) refl h
    where
      go :
          (r : Result A × S)
          → m s ≡ r
          → continue f r ≡ (ok b, s')
          → (a : A) × (t : S) × (m s ≡ (ok a, t)) × (f a t ≡ (ok b, s'))
      go (ok a, t) e k = (a, t, e, k)
      go (err e', t) e k = absurd (ground arith)

  -- The same, for what follows from the parts.
  pub ok_then :
      {C : Type 0} (m : Action S A) (f : A → Action S B) (s s' : S) (b : B)
      → (m >>= f) s ≡ (ok b, s')
      → ((a : A) (t : S) → m s ≡ (ok a, t) → f a t ≡ (ok b, s') → C)
      → C
  ok_then m f s s' b h k = let (a, t, e, g) = >>=-eq-ok m f s s' b h in k a t e g
