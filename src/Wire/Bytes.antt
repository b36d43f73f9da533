-- ===== src/Wire/Bytes.antt =====
-- `int.to_bytes` and `int.from_bytes` of Python, big-endian.
pub mod Laws
use pf.Base.{
  ℕ, zero, suc, ◌+◌, ◌-◌, ◌*◌, ◌/◌, ◌%◌, ◌^◌, List, [], ◌∷◌, ◌++◌, length, if◌then◌else◌, ltb, leb,
  ◌==◌, nat_eq,
}
use pf.Base.Int.{ℤ, pos, negsuc}
use pf.Wire.{Call, done, error, crash}

-- The last bytes of the number, most significant first.
unfoldable pub big_endian : ℕ → ℕ → List ℕ
big_endian zero value = []
big_endian (suc n) value = big_endian n (value / 256) ++ (value % 256 ∷ [])

-- `value.to_bytes(length)`: an `OverflowError` where it does not fit.
unfoldable pub to_bytes : ℕ → ℕ → Call (List ℕ)
unfolding big_endian
to_bytes value n = if ltb value (256 ^ n) then done (big_endian n value) else crash

unfoldable pub from_bytes_loop : ℕ → List ℕ → ℕ
from_bytes_loop value [] = value
from_bytes_loop value (b ∷ bytes) = from_bytes_loop (value * 256 + b) bytes

-- `int.from_bytes(bytes)`
unfoldable pub from_bytes : List ℕ → ℕ
unfolding from_bytes_loop
from_bytes bytes = from_bytes_loop 0 bytes

-- `-m`
abbrev pub neg : ℕ → ℤ
neg zero = pos zero
neg (suc m) = negsuc m

-- `value.to_bytes(length, signed=True)` for a negative value, `-(m + 1)`: two's complement.
unfoldable pub to_bytes_negative : ℕ → ℕ → Call (List ℕ)
to_bytes_negative m n =
    if leb (2 * suc m) (256 ^ n) then done (big_endian n (256 ^ n - suc m)) else crash

-- `int.from_bytes(bytes, signed=True)`: the upper half of the numbers of that length is negative.
unfoldable pub from_bytes_signed : List ℕ → ℤ
from_bytes_signed bytes =
    let value = from_bytes bytes in
    let limit = 256 ^ length bytes in
    if leb limit (2 * value) then neg (limit - value) else pos value
