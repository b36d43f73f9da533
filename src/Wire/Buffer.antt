-- ===== src/Wire/Buffer.antt =====
-- `Reader` and `Writer` of src/provablyfine/ssh/buffer.py.
pub mod Laws
pub mod Run
use pf.Base.{
  ℕ, zero, suc, ◌+◌, ◌-◌, ◌/◌, List, [], ◌∷◌, ◌++◌, length, take, drop, if◌then◌else◌, ltb, leb,
  ◌==◌, nat_eq,
}
use pf.Base.Int.{ℤ, pos, negsuc}
use pf.Wire.{Call, done, error, crash, ◌>>=◌}
use pf.Wire.Bytes.{to_bytes, from_bytes, to_bytes_negative, from_bytes_signed}

pub record Reader : Type 0 where
  pub buffer : List ℕ
  pub current : ℕ

pub read_bytes : ℕ → Reader → Call (List ℕ × Reader)
read_bytes n r =
    if ltb (length r.buffer) (r.current + n)
    then error "Unable to parse ssh data buffer"
    else done (take n (drop r.current r.buffer), record r { current = r.current + n })

-- A number of `n` bytes: `read_uint32` and `read_uint64`.
pub read_uint : ℕ → Reader → Call (ℕ × Reader)
unfolding read_bytes
read_uint n r = do p ← read_bytes n r; done (from_bytes p.0, p.1)

unfoldable pub read_uint32 : Reader → Call (ℕ × Reader)
unfolding read_uint
read_uint32 = read_uint 4

unfoldable pub read_uint64 : Reader → Call (ℕ × Reader)
unfolding read_uint
read_uint64 = read_uint 8

unfoldable pub read_string : Reader → Call (List ℕ × Reader)
unfolding read_uint32
read_string r = do p ← read_uint32 r; read_bytes p.0 p.1

unfoldable pub read_mpint : Reader → Call (ℤ × Reader)
unfolding read_string
read_mpint r = do
  p ← read_string r
  done (if length p.0 == 0 then pos 0 else from_bytes_signed p.0, p.1)

-- What a writer has written.
abbrev pub Writer : Type 0
Writer = List ℕ

unfoldable pub write_bytes : List ℕ → Writer → Writer
write_bytes bytes w = w ++ bytes

-- `n.to_bytes(…)` after what was written.
pub write_uint : ℕ → ℕ → Writer → Call Writer
write_uint n value w = do bytes ← to_bytes value n; done (w ++ bytes)

unfoldable pub write_byte : ℕ → Writer → Call Writer
unfolding write_uint
write_byte = write_uint 1

unfoldable pub write_uint32 : ℕ → Writer → Call Writer
unfolding write_uint
write_uint32 = write_uint 4

unfoldable pub write_uint64 : ℕ → Writer → Call Writer
unfolding write_uint
write_uint64 = write_uint 8

unfoldable pub write_string : List ℕ → Writer → Call Writer
unfolding write_uint32 write_bytes
write_string bytes w = do w' ← write_uint32 (length bytes) w; done (write_bytes bytes w')

unfoldable pub write_nested_string : List ℕ → Writer → Call Writer
unfolding write_string
write_nested_string bytes w = do nested ← write_string bytes []; write_string nested w

-- `n.bit_length()` of a number below `2 ** fuel`.
bit_length_loop : ℕ → ℕ → ℕ
bit_length_loop zero n = 0
bit_length_loop (suc fuel) n =
    let rest = bit_length_loop fuel (n / 2) in if n == 0 then 0 else suc rest

unfoldable pub bit_length : ℕ → ℕ
unfolding bit_length_loop
bit_length n = bit_length_loop n n

-- The bytes of a positive number; `buffer[0]` of no bytes is an `IndexError`.
padded : List ℕ → Call (List ℕ)
padded [] = crash
padded (b ∷ bytes) = if leb 128 b then done (0 ∷ b ∷ bytes) else done (b ∷ bytes)

unfoldable pub write_mpint : ℤ → Writer → Call Writer
unfolding bit_length padded write_string
write_mpint (pos zero) w = write_string [] w
write_mpint (pos (suc n)) w = do
  bytes ← to_bytes (suc n) ((bit_length (suc n) + 7) / 8)
  buffer ← padded bytes
  write_string buffer w
write_mpint (negsuc m) w = do
  bytes ← to_bytes_negative m ((bit_length (suc m) + 7 + 1) / 8)
  write_string bytes w
