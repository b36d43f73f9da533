-- ===== src/Base/Text/Decimal.antt =====
-- A number is read back from its decimal digits.
use Prim.Native.Nat.{ℕ, zero, suc, ◌+◌, ◌-◌, ◌*◌, ◌/◌, ◌%◌, ◌<◌}
use Prim.Native.Char.{code}
use Prim.Native.String.{String, ◌++◌ as ◌<>◌}
use mathlib.Core.Path.{◌≡◌, refl, sym, ap, ◌∙◌}
use mathlib.Core.Bool.{Bool, true, not, ◌&&◌}
use mathlib.Core.Logic.{inl, inr}
use text.Mathlib.TextLemmas.{nil-append, cons-append}
use native.Mathlib.Omega.{arith}
use pf.Base.Equality.{◌==◌, nat_eq}
use pf.Base.Tests.{ltb, Bool-cases}
use pf.Base.Text.{digit, of_digits, decimal_loop, decimal}

number : String → ℕ → ℕ
number String.[] acc = acc
number (String.◌∷◌ c s) acc = number s (acc * 10 + (code c - 48))

number-append : (s t : String) (acc : ℕ) → number (s <> t) acc ≡ number t (number s acc)
unfolding number
number-append String.[] t acc = ap (λ u. number u acc) (nil-append t)
number-append (String.◌∷◌ c s) t acc =
    ap (λ u. number u acc) (cons-append c s t) ∙ number-append s t (acc * 10 + (code c - 48))

number-digit : (d acc : ℕ) → d < 10 → number (digit d) acc ≡ acc * 10 + d
unfolding number digit
number-digit zero acc h = refl
number-digit (suc zero) acc h = refl
number-digit (suc (suc zero)) acc h = refl
number-digit (suc (suc (suc zero))) acc h = refl
number-digit (suc (suc (suc (suc zero)))) acc h = refl
number-digit (suc (suc (suc (suc (suc zero))))) acc h = refl
number-digit (suc (suc (suc (suc (suc (suc zero)))))) acc h = refl
number-digit (suc (suc (suc (suc (suc (suc (suc zero))))))) acc h = refl
number-digit (suc (suc (suc (suc (suc (suc (suc (suc zero)))))))) acc h = refl
number-digit (suc (suc (suc (suc (suc (suc (suc (suc (suc zero))))))))) acc h = refl
number-digit (suc (suc (suc (suc (suc (suc (suc (suc (suc (suc d)))))))))) acc h = omega arith

number-decimal_loop : (fuel n : ℕ) → n < fuel → number (decimal_loop fuel n) 0 ≡ n
unfolding decimal_loop
number-decimal_loop zero n h = elim h [ ]
number-decimal_loop (suc fuel) n h = elim (Bool-cases (ltb n 10)) [
  | inl e ↦ ground (arith, number-digit n 0)
  | inr e ↦ ground (
    arith,
    number-append (decimal_loop fuel (n / 10)) (digit (n % 10)) 0,
    number-digit (n % 10) (number (decimal_loop fuel (n / 10)) 0),
    number-decimal_loop fuel (n / 10),
  )
]

-- Two numbers with the same digits are equal.
pub decimal_inj : (m n : ℕ) → decimal m ≡ decimal n → m ≡ n
unfolding decimal
decimal_inj m n h =
    sym (number-decimal_loop (suc m) m (omega arith))
    ∙ ap (λ s. number s 0) h
    ∙ number-decimal_loop (suc n) n (omega arith)

-- The character does not stand in the text.
abbrev pub lacks : ℕ → String → Bool
lacks k String.[] = true
lacks k (String.◌∷◌ c s) = not (code c == k) && lacks k s

lacks-append : (k : ℕ) (s t : String) → lacks k (s <> t) ≡ (lacks k s && lacks k t)
lacks-append k String.[] t = ap (lacks k) (nil-append t)
lacks-append k (String.◌∷◌ c s) t =
    ap (lacks k) (cons-append c s t) ∙ ground (arith, lacks-append k s t)

-- `k` is the code of no digit.
lacks-digit : (k d : ℕ) → ltb 57 k ≡ true → lacks k (digit d) ≡ true
lacks-digit k d h = of_digits (lacks k) (ground arith) d

lacks-decimal_loop : (k fuel n : ℕ) → ltb 57 k ≡ true → lacks k (decimal_loop fuel n) ≡ true
unfolding decimal_loop
lacks-decimal_loop k zero n h = refl
lacks-decimal_loop k (suc fuel) n h = ground (
  arith,
  lacks-digit k n,
  lacks-digit k (n % 10),
  lacks-append k (decimal_loop fuel (n / 10)) (digit (n % 10)),
  lacks-decimal_loop k fuel (n / 10),
)

pub lacks-decimal : (k n : ℕ) → ltb 57 k ≡ true → lacks k (decimal n) ≡ true
unfolding decimal
lacks-decimal k n h = lacks-decimal_loop k (suc n) n h
