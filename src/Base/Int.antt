-- ===== src/Base/Int.antt =====
-- Integers, as far as times that a client sends need them.
use Prim.Native.Nat.{ℕ, ◌+◌, ◌-◌, ◌≤◌}
use mathlib.Core.Path.{◌≡◌}
use mathlib.Core.Bool.{Bool, true, false}
use native.Mathlib.Omega.{arith}
use pf.Base.Tests.{leb, ltb, if◌then◌else◌}

-- `negsuc n` is -(n + 1).
pub data ℤ : Type 0 where
  pos : ℕ → ℤ
  negsuc : ℕ → ℤ

-- `a + n` for a natural number `n`.
abbrev pub add_ℕ : ℤ → ℕ → ℤ
add_ℕ (pos a) n = pos (a + n)
add_ℕ (negsuc a) n = if ltb a n then pos (n - a - 1) else negsuc (a - n)

-- `n <= b` for a natural number `n`.
abbrev pub le_int : ℕ → ℤ → Bool
le_int n (pos b) = leb n b
le_int n (negsuc b) = false

pub le_int_of_le : (m n : ℕ) (b : ℤ) → m ≤ n → le_int n b ≡ true → le_int m b ≡ true
le_int_of_le m n (pos b) h k = ground arith
le_int_of_le m n (negsuc b) h k = cc

-- The number itself, where it is at most `b`.
pub add_ℕ-mono :
    (b : ℤ) (m n k : ℕ) → m ≤ n → le_int k (add_ℕ b m) ≡ true → le_int k (add_ℕ b n) ≡ true
add_ℕ-mono (pos b) m n k h e = ground arith
add_ℕ-mono (negsuc b) m n k h e = ground arith

-- `n < b` for a natural number `n`.
abbrev pub lt_int : ℕ → ℤ → Bool
lt_int n (pos b) = ltb n b
lt_int n (negsuc b) = false

-- `a - b`
abbrev pub sub_ℕ : ℕ → ℕ → ℤ
sub_ℕ a b = if leb b a then pos (a - b) else negsuc (b - a - 1)
