-- ===== src/Wire/Bytes/Laws.antt =====
-- Numbers go through their bytes.
use pf.Base.{
  ℕ, zero, suc, ◌+◌, ◌*◌, ◌/◌, ◌%◌, ◌^◌, ◌≤◌, ◌<◌, ◌≡◌, refl, ◌∙◌, ap, true, List, [], ◌∷◌, ◌++◌,
  length, length-append, all, all-append, ltb, nat_eq, arith,
}
use native.Mathlib.Nat.{pow-suc, pow-succ', mul-le-mul_left, mul_comm, mul_assoc}
use pf.Wire.Bytes.{big_endian, from_bytes_loop, from_bytes}

pub length-big_endian : (n value : ℕ) → length (big_endian n value) ≡ n
unfolding big_endian
length-big_endian zero value = refl
length-big_endian (suc n) value = omega (
  arith,
  length-append (big_endian n (value / 256)) (value % 256 ∷ []),
  length-big_endian n (value / 256),
)

from_bytes_loop-append :
    (value : ℕ) (xs ys : List ℕ)
    → from_bytes_loop value (xs ++ ys) ≡ from_bytes_loop (from_bytes_loop value xs) ys
unfolding from_bytes_loop
from_bytes_loop-append value [] ys = refl
from_bytes_loop-append value (x ∷ xs) ys = from_bytes_loop-append (value * 256 + x) xs ys

pub from_bytes-big_endian :
    (n value : ℕ) → value < 256 ^ n → from_bytes (big_endian n value) ≡ value
unfolding from_bytes from_bytes_loop big_endian
from_bytes-big_endian zero value h = omega arith
from_bytes-big_endian (suc n) value h =
    from_bytes_loop-append 0 (big_endian n (value / 256)) (value % 256 ∷ [])
    ∙ omega (arith, from_bytes-big_endian n (value / 256) (omega (arith, pow-suc 256 n)))

-- Each byte fits.
abbrev pub IsBytes : List ℕ → Type 0
IsBytes bytes = all (λ b. ltb b 256) bytes ≡ true

pub big_endian-IsBytes : (n value : ℕ) → IsBytes (big_endian n value)
unfolding big_endian
big_endian-IsBytes zero value = refl
big_endian-IsBytes (suc n) value = ground (
  arith,
  all-append (λ b. ltb b 256) (big_endian n (value / 256)) (value % 256 ∷ []),
  big_endian-IsBytes n (value / 256),
)

loop_bound :
    (value : ℕ) (bytes : List ℕ)
    → IsBytes bytes
    → from_bytes_loop value bytes < suc value * 256 ^ length bytes
unfolding from_bytes_loop
loop_bound value [] h = omega arith
loop_bound value (b ∷ bytes) h =
    let small : suc (value * 256 + b) ≤ suc value * 256 = ground arith in
    let later : from_bytes_loop (value * 256 + b) bytes
        < suc (value * 256 + b) * 256 ^ length bytes =
      loop_bound (value * 256 + b) bytes (ground arith) in
    omega (
      arith,
      later,
      mul-le-mul_left (256 ^ length bytes) small,
      ap (λ p. suc value * p) (pow-succ' 256 (length bytes)),
      mul_comm (256 ^ length bytes) (suc (value * 256 + b)),
      mul_comm (256 ^ length bytes) (suc value * 256),
      mul_assoc (suc value) 256 (256 ^ length bytes),
    )

-- Where the first byte is below 128, the value is in the lower half.
pub first_byte :
    (b : ℕ) (bytes : List ℕ)
    → b < 128
    → IsBytes bytes
    → 2 * from_bytes (b ∷ bytes) < 256 ^ suc (length bytes)
unfolding from_bytes from_bytes_loop
first_byte b bytes h k =
    let low : suc (0 * 256 + b) ≤ 128 = omega arith in
    omega (
      arith,
      loop_bound (0 * 256 + b) bytes k,
      mul-le-mul_left (256 ^ length bytes) low,
      pow-suc 256 (length bytes),
      mul_comm (256 ^ length bytes) (suc (0 * 256 + b)),
    )

pub from_bytes_bound : (bytes : List ℕ) → IsBytes bytes → from_bytes bytes < 256 ^ length bytes
unfolding from_bytes
from_bytes_bound bytes h = omega (arith, loop_bound 0 bytes h)

-- One byte.
pub big_endian_byte : (b : ℕ) → b < 256 → big_endian 1 b ≡ b ∷ []
unfolding big_endian
big_endian_byte b h = ap (λ n. n ∷ []) (omega arith)
