-- ===== src/Prelude/Decimal.antt =====
-- The digits of a number read back as the number, so that different numbers have different digits.
use Prim.Native.Nat.{ℕ, zero, suc, ◌+◌, ◌*◌, ◌-◌, ◌/◌, ◌%◌, ◌<◌}
use mathlib.Core.Path.{◌≡◌, ◌∙◌, ap}
use mathlib.Core.Logic.{inl, inr}
use mathlib.Core.List.{[], ◌∷◌}
use native.Mathlib.Omega.{arith}
use asset_hub.Prelude.Tests.{◌==◌, Bool-cases}
use asset_hub.Prelude.Text.{Text, decimal, decimal_from}

-- What a text of digits stands for, read from the left after the given number.
unfoldable pub read_from : ℕ → Text → ℕ
read_from n [] = n
read_from n (c ∷ s) = read_from (n * 10 + (c - b'0')) s

-- Enough fuel puts all digits of the number in front of the text.
read-decimal_from :
    (f n : ℕ) (acc : Text) → n < f → read_from 0 (decimal_from f n acc) ≡ read_from n acc
unfolding decimal_from read_from
read-decimal_from zero n acc h = absurd (omega (arith, h))
read-decimal_from (suc f) n acc h = elim (Bool-cases (n / 10 == 0)) [
  | inl e ↦
      let same : 0 * 10 + (b'0' + n % 10 - b'0') ≡ n = ground arith in
      rw e (ap (λ k. read_from k acc) same)
  | inr e ↦
      let smaller : n / 10 < f = ground arith in
      let same : n / 10 * 10 + (b'0' + n % 10 - b'0') ≡ n = omega arith in
      rw e (
        read-decimal_from f (n / 10) ((b'0' + n % 10) ∷ acc) smaller
        ∙ ap (λ k. read_from k acc) same)
]

-- `String(n)` reads back as `n`, whatever the number: its fuel is enough for all digits.
pub read-decimal : (n : ℕ) → read_from 0 (decimal n) ≡ n
unfolding decimal read_from
read-decimal n = read-decimal_from (suc n) n [] (omega arith)
