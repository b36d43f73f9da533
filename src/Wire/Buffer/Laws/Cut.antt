-- ===== src/Wire/Buffer/Laws/Cut.antt =====
-- A text that is cut off is an error.
use pf.Base.{
  ℕ, ◌-◌, ◌^◌, ◌≤◌, ◌<◌, ◌≡◌, refl, ◌∙◌, List, ◌++◌, length, length-append, take, take_past,
  length-take, ltb, arith, Bool-cases, inl, inr,
}
use pf.Wire.{error}
use pf.Wire.Bytes.{big_endian}
use pf.Wire.Bytes.Laws.{length-big_endian}
use pf.Wire.Buffer.{read_uint, read_uint32, read_bytes, read_string}
use pf.Wire.Buffer.Laws.{at, framed, read_left, read_uint-big_endian}

-- Too few bytes are left.
read_bytes_short :
    (n : ℕ) (w rest : List ℕ)
    → length rest < n
    → read_bytes n (at w rest) ≡ error "Unable to parse ssh data buffer"
read_bytes_short n w rest h = read_left n w rest ∙ ground (arith, h)

-- Where the bytes of a text end early, no matter where, reading the text is an error.
pub read_string-take :
    (bytes w : List ℕ) (k : ℕ)
    → length bytes < 256 ^ 4
    → k < length (framed bytes)
    → read_string (at w (take k (framed bytes))) ≡ error "Unable to parse ssh data buffer"
unfolding read_string read_uint32 read_uint
read_string-take bytes w k h l = elim (Bool-cases (ltb k 4)) [
  | inl e ↦
      rw
        (read_bytes_short 4 w (take k (framed bytes))
          (ground (arith, length-take k (framed bytes))))
        refl
  | inr e ↦
      let head = big_endian 4 (length bytes) in
      let size : length head ≡ 4 = length-big_endian 4 (length bytes) in
      let four : length head ≤ k = ground (arith, size) in
      let tail = take (k - length head) bytes in
      rw (take_past k head bytes four, read_uint-big_endian 4 (length bytes) w tail h)
        (read_bytes_short (length bytes) (w ++ head) tail
          (omega (arith, length-take (k - length head) bytes, length-append head bytes, l, size)))
]
