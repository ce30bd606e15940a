-- ===== src/Prelude/Decimal.antt =====
-- A number in decimal digits, as `%d` prints it.
use Prim.Native.Nat.{ℕ, zero, suc, ◌+◌, ◌-◌, ◌*◌, ◌/◌, ◌%◌, ◌<◌}
use Prim.Native.Char.{Char, code}
use Prim.Native.String.{String}
use mathlib.Core.Path.{◌≡◌, refl, sym, ap, ◌∙◌}
use mathlib.Core.Logic.{inl, inr}
use native.Mathlib.Omega.{arith}
use transcoderd.Prelude.Tests.{◌==◌, if◌then◌else◌, Bool-cases}

abbrev digit : ℕ → Char
digit zero = "0"
digit (suc zero) = "1"
digit (suc (suc zero)) = "2"
digit (suc (suc (suc zero))) = "3"
digit (suc (suc (suc (suc zero)))) = "4"
digit (suc (suc (suc (suc (suc zero))))) = "5"
digit (suc (suc (suc (suc (suc (suc zero)))))) = "6"
digit (suc (suc (suc (suc (suc (suc (suc zero))))))) = "7"
digit (suc (suc (suc (suc (suc (suc (suc (suc zero)))))))) = "8"
digit (suc (suc (suc (suc (suc (suc (suc (suc (suc n))))))))) = "9"

code-digit : (d : ℕ) → d < 10 → code (digit d) ≡ b'0' + d
code-digit zero h = refl
code-digit (suc zero) h = refl
code-digit (suc (suc zero)) h = refl
code-digit (suc (suc (suc zero))) h = refl
code-digit (suc (suc (suc (suc zero)))) h = refl
code-digit (suc (suc (suc (suc (suc zero))))) h = refl
code-digit (suc (suc (suc (suc (suc (suc zero)))))) h = refl
code-digit (suc (suc (suc (suc (suc (suc (suc zero))))))) h = refl
code-digit (suc (suc (suc (suc (suc (suc (suc (suc zero)))))))) h = refl
code-digit (suc (suc (suc (suc (suc (suc (suc (suc (suc zero))))))))) h = refl
code-digit (suc (suc (suc (suc (suc (suc (suc (suc (suc (suc n)))))))))) h = absurd (omega arith)

-- The digits of `n` in front of a text; the fuel is more than the number.
abbrev emit : ℕ → ℕ → String → String
emit zero n s = s
emit (suc fuel) n s =
    let rest = emit fuel (n / 10) (String.◌∷◌ (digit (n % 10)) s) in
    if n / 10 == 0 then String.◌∷◌ (digit (n % 10)) s else rest

unfoldable pub decimal : ℕ → String
decimal n = emit (n + 1) n ""

-- The number that digits after a number stand for.
value : ℕ → String → ℕ
value acc String.[] = acc
value acc (String.◌∷◌ c s) = value (acc * 10 + (code c - b'0')) s

value-digit :
    (acc d : ℕ) (s : String) → d < 10 → value acc (String.◌∷◌ (digit d) s) ≡ value (acc * 10 + d) s
unfolding value
value-digit acc d s h = ap (λ m. value m s) (omega (arith, code-digit d h))

value-emit : (fuel n : ℕ) (s : String) → n < fuel → value 0 (emit fuel n s) ≡ value n s
value-emit zero n s h = absurd (omega arith)
value-emit (suc fuel) n s h = elim (Bool-cases (n / 10 == 0)) [
  | inl small ↦
      rw small
        (value-digit 0 (n % 10) s (omega arith) ∙ ap (λ m. value m s) (ground (arith, small)))
  | inr large ↦ rw large (
      value-emit fuel (n / 10) (String.◌∷◌ (digit (n % 10)) s) (ground (arith, large))
      ∙ value-digit (n / 10) (n % 10) s (omega arith)
      ∙ ap (λ m. value m s) (omega arith))
]

-- Different numbers are printed differently.
pub decimal_inj : (m n : ℕ) → decimal m ≡ decimal n → m ≡ n
unfolding decimal value
decimal_inj m n h =
    sym (value-emit (m + 1) m "" (omega arith))
    ∙ ap (value 0) h
    ∙ value-emit (n + 1) n "" (omega arith)

twenty_one : decimal 210 ≡ "210"
unfolding decimal
twenty_one = refl
