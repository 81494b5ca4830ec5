-- ===== src/Prelude/Decimal.antt =====
-- `str` of a natural number.
use Prim.Native.Nat.{ℕ, zero, suc, ◌+◌, ◌-◌, ◌*◌, ◌/◌, ◌%◌, ◌<◌}
use mathlib.Core.List.{[], ◌∷◌}
use mathlib.Core.Path.{◌≡◌, sym, ◌∙◌, ap}
use mathlib.Core.Logic.{inl, inr}
use native.Mathlib.Omega.{arith}
use early_warning_system.Prelude.Tests.{ltb, if◌then◌else◌, Bool-cases}
use early_warning_system.Prelude.Texts.{Text}

-- The digits of a number in front of those already found; every round divides by ten.
unfoldable pub decimal_rounds : ℕ → ℕ → Text → Text
decimal_rounds zero n acc = acc
decimal_rounds (suc fuel) n acc =
    let digits = (48 + n % 10) ∷ acc in
    let more = decimal_rounds fuel (n / 10) digits in if ltb n 10 then digits else more

-- A number has no more digits than its successor counts.
unfoldable pub decimal : ℕ → Text
unfolding decimal_rounds
decimal n = decimal_rounds (suc n) n []

-- the number that digits stand for behind a number already read
abbrev pub of_digits : ℕ → Text → ℕ
of_digits n [] = n
of_digits n (c ∷ t) = of_digits (n * 10 + (c - 48)) t

of_digits-decimal_rounds :
    (fuel n : ℕ) (acc : Text) → n < fuel → of_digits 0 (decimal_rounds fuel n acc) ≡ of_digits n acc
unfolding decimal_rounds
of_digits-decimal_rounds zero n acc h = absurd (omega (arith, h))
of_digits-decimal_rounds (suc fuel) n acc h = elim (Bool-cases (ltb n 10)) [
  | inl small ↦ rw small (ap (λ m. of_digits m acc) (ground (arith, small)))
  | inr large ↦ rw large (
      of_digits-decimal_rounds fuel (n / 10) ((48 + n % 10) ∷ acc) (ground (arith, large, h))
      ∙ ap (λ m. of_digits m acc) (omega arith))
]

pub of_digits-decimal : (n : ℕ) → of_digits 0 (decimal n) ≡ n
unfolding decimal
of_digits-decimal n = of_digits-decimal_rounds (suc n) n [] (omega arith)

-- Different numbers are written differently.
pub decimal-injective : (n m : ℕ) → decimal n ≡ decimal m → n ≡ m
decimal-injective n m e = sym (of_digits-decimal n) ∙ ap (of_digits 0) e ∙ of_digits-decimal m
