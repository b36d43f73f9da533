-- ===== src/Base/Text.antt =====
-- Numbers in texts.
pub mod Decimal
use Prim.Native.Nat.{ℕ, zero, suc, ◌+◌, ◌/◌, ◌%◌}
use Prim.Native.String.{String, ◌++◌ as ◌<>◌}
use mathlib.Core.Path.{◌≡◌, refl}
use mathlib.Core.Bool.{Bool, true}
use mathlib.Core.List.{List, [], ◌∷◌}
use native.Mathlib.Omega.{arith}
use pf.Base.Lists.{all}
use pf.Base.Tests.{if◌then◌else◌, ltb}

unfoldable pub digit : ℕ → String
digit zero = "0"
digit (suc zero) = "1"
digit (suc (suc zero)) = "2"
digit (suc (suc (suc zero))) = "3"
digit (suc (suc (suc (suc zero)))) = "4"
digit (suc (suc (suc (suc (suc zero))))) = "5"
digit (suc (suc (suc (suc (suc (suc zero)))))) = "6"
digit (suc (suc (suc (suc (suc (suc (suc zero))))))) = "7"
digit (suc (suc (suc (suc (suc (suc (suc (suc zero)))))))) = "8"
digit (suc (suc (suc (suc (suc (suc (suc (suc (suc n))))))))) = "9"

abbrev pub digits : List String
digits = "0" ∷ "1" ∷ "2" ∷ "3" ∷ "4" ∷ "5" ∷ "6" ∷ "7" ∷ "8" ∷ "9" ∷ []

-- What holds of the ten digits.
pub of_digits : (p : String → Bool) → all p digits ≡ true → (d : ℕ) → p (digit d) ≡ true
unfolding digit
of_digits p h zero = ground arith
of_digits p h (suc zero) = ground arith
of_digits p h (suc (suc zero)) = ground arith
of_digits p h (suc (suc (suc zero))) = ground arith
of_digits p h (suc (suc (suc (suc zero)))) = ground arith
of_digits p h (suc (suc (suc (suc (suc zero))))) = ground arith
of_digits p h (suc (suc (suc (suc (suc (suc zero)))))) = ground arith
of_digits p h (suc (suc (suc (suc (suc (suc (suc zero))))))) = ground arith
of_digits p h (suc (suc (suc (suc (suc (suc (suc (suc zero)))))))) = ground arith
of_digits p h (suc (suc (suc (suc (suc (suc (suc (suc (suc d))))))))) = ground arith

-- `str(n)`: a number below the fuel has fewer digits than that.
unfoldable pub decimal_loop : ℕ → ℕ → String
unfolding digit
decimal_loop zero n = ""
decimal_loop (suc fuel) n =
    let rest = decimal_loop fuel (n / 10) in if ltb n 10 then digit n else rest <> digit (n % 10)

unfoldable pub decimal : ℕ → String
unfolding decimal_loop
decimal n = decimal_loop (suc n) n

decimal_run : decimal 2047 ≡ "2047"
unfolding decimal
decimal_run = refl
