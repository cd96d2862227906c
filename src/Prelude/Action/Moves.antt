-- ===== src/Prelude/Action/Moves.antt =====
-- What a handler may do to the state, one rule for each way to build a handler.
use mathlib.Core.Path.{◌≡◌, refl}
use mathlib.Core.Bool.{Bool, true, false}
use mathlib.Core.Option.{Option, none, some}
use asset_hub.Prelude.Tests.{if◌then◌else◌}
use asset_hub.Prelude.Action.{
  Action, Error, Result, ok, err, pure, raise, gets, or_raise, atomically, modify, raise_if,
  raise_given, ◌>>=◌, continue,
}

-- A relation between the state before and after that allows no change, and steps in a row.
pub record IsPreorder {S : Type 0} (R : S → S → Type 0) : Type 0 where
  pub same : (s : S) → R s s
  pub then_also : (s t u : S) → R s t → R t u → R s u

-- Whether `m` returns or throws, the state after it is related to the state before.
pub record Moves {S A : Type 0} (R : S → S → Type 0) (m : Action S A) : Type 0 where
  pub at : (s : S) → R s (m s).1

module _ {S A : Type 0} {R : S → S → Type 0} where
  pub Moves-pure : IsPreorder R → (a : A) → Moves R (pure a)
  unfolding pure
  Moves-pure o a = record { at = o.same }

  pub Moves-raise : IsPreorder R → (e : Error) → Moves R (raise {A = A} e)
  unfolding raise
  Moves-raise o e = record { at = o.same }

  pub Moves-gets : IsPreorder R → (f : S → A) → Moves R (gets f)
  unfolding gets
  Moves-gets o f = record { at = o.same }

  pub Moves-or_raise : IsPreorder R → (x : Option A) (e : Error) → Moves R (or_raise x e)
  unfolding or_raise
  Moves-or_raise o none e = record { at = o.same }
  Moves-or_raise o (some a) e = record { at = o.same }

  pub Moves-if :
      (b : Bool) (m n : Action S A)
      → (b ≡ true → Moves R m)
      → (b ≡ false → Moves R n)
      → Moves R (if b then m else n)
  Moves-if true m n km kn = km refl
  Moves-if false m n km kn = kn refl

  restored : IsPreorder R → (m : Action S A) → Moves R m → (s : S) → R s (atomically m s).1
  unfolding atomically
  restored o m k s = go (m s) (k.at s)
    where
      go : (r : Result A × S) → R s r.1 → R s (atomically (λ _. r) s).1
      go (ok a, s') h = h
      go (err e, s') h = o.same s

  pub Moves-atomically : IsPreorder R → (m : Action S A) → Moves R m → Moves R (atomically m)
  Moves-atomically o m k = record { at = restored o m k }

module _ {S : Type 0} {R : S → S → Type 0} where
  pub Moves-modify : (f : S → S) → ((s : S) → R s (f s)) → Moves R (modify f)
  unfolding modify
  Moves-modify f h = record { at = h }

  pub Moves-raise_if : IsPreorder R → (c : Bool) (e : Error) → Moves R (raise_if c e)
  unfolding raise_if
  Moves-raise_if o c e = record { at = o.same }

  pub Moves-raise_given : IsPreorder R → (x : Option Error) → Moves R (raise_given x)
  unfolding raise_given
  Moves-raise_given o none = record { at = o.same }
  Moves-raise_given o (some e) = record { at = o.same }

module _ {S A B : Type 0} {R : S → S → Type 0} where
  bound :
      IsPreorder R
      → (f : A → Action S B) → ((a : A) → Moves R (f a))
      → (s : S) (r : Result A × S) → R s r.1
      → R s (continue f r).1
  bound o f kf s (ok a, s') h = o.then_also s s' (f a s').1 h ((kf a).at s')
  bound o f kf s (err e, s') h = h

  pub Moves-bind :
      IsPreorder R
      → (m : Action S A) (f : A → Action S B) → Moves R m
      → ((a : A) → Moves R (f a))
      → Moves R (m >>= f)
  unfolding ◌>>=◌
  Moves-bind o m f km kf = record { at = λ s. bound o f kf s (m s) (km.at s) }

pub ruleset moves_rules = (
  Moves-pure, Moves-raise, Moves-gets, Moves-or_raise, Moves-if, Moves-atomically, Moves-raise_if,
  Moves-raise_given, Moves-bind,
)
