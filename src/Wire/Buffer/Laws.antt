-- ===== src/Wire/Buffer/Laws.antt =====
-- What a `Writer` writes, a `Reader` reads, and goes on behind it.
pub mod Mpint
pub mod Cut
use pf.Base.{
  ℕ, zero, suc, ◌+◌, ◌-◌, ◌*◌, ◌/◌, ◌^◌, ◌≤◌, ◌<◌, ◌≡◌, refl, sym, ◌∙◌, ap, Bool, true, false, List,
  [], ◌∷◌, ◌++◌, length, length-append, take, drop, drop-append, take-append, append_assoc,
  if◌then◌else◌, ltb, leb, arith, Bool-cases, inl, inr,
}
use pf.Wire.{Call, done, error, crash, ◌>>=◌}
use pf.Wire.Bytes.{big_endian, to_bytes, from_bytes}
use pf.Wire.Bytes.Laws.{length-big_endian, from_bytes-big_endian}
use pf.Wire.Buffer.{
  Reader, read_bytes, read_uint, read_uint32, read_uint64, read_string, Writer, write_bytes,
  write_uint, write_uint32, write_uint64, write_string, write_nested_string,
}

-- A reader that has read `w`, with `rest` left.
abbrev pub at : List ℕ → List ℕ → Reader
at w rest = record { buffer = w ++ rest; current = length w }

-- What is left decides about the next read.
pub read_left :
    (n : ℕ) (w rest : List ℕ)
    → read_bytes n (at w rest) ≡ (
        if ltb (length rest) n
        then error "Unable to parse ssh data buffer"
        else done (take n rest, record { buffer = w ++ rest; current = length w + n }))
unfolding read_bytes
read_left n w rest = rw (drop-append w rest, length-append w rest) (ground arith)

pub read_bytes-append :
    (w bytes rest : List ℕ)
    → read_bytes (length bytes) (at w (bytes ++ rest)) ≡ done (bytes, at (w ++ bytes) rest)
read_bytes-append w bytes rest =
    read_left (length bytes) w (bytes ++ rest)
    ∙ rw
        (
          take-append bytes rest,
          length-append bytes rest,
          length-append w bytes,
          append_assoc w bytes rest,
        )
        (ground arith)

-- A number of `n` bytes.
pub write_uint_done :
    (n value : ℕ) (w : Writer)
    → value < 256 ^ n
    → write_uint n value w ≡ done (w ++ big_endian n value)
unfolding write_uint to_bytes
write_uint_done n value w h = ground arith

pub read_uint-big_endian :
    (n value : ℕ) (w rest : List ℕ)
    → value < 256 ^ n
    → read_uint n (at w (big_endian n value ++ rest))
      ≡ done (value, at (w ++ big_endian n value) rest)
unfolding read_uint
read_uint-big_endian n value w rest h =
    let exact : read_bytes n (at w (big_endian n value ++ rest))
        ≡ done (big_endian n value, at (w ++ big_endian n value) rest) =
      ap (λ k. read_bytes k (at w (big_endian n value ++ rest))) (sym (length-big_endian n value))
      ∙ read_bytes-append w (big_endian n value) rest in
    ap (λ c. c >>= λ p. done (from_bytes p.0, p.1)) exact
    ∙ ap (λ v. done (v, at (w ++ big_endian n value) rest)) (from_bytes-big_endian n value h)

-- The bytes of a text: its length, and itself.
abbrev pub framed : List ℕ → List ℕ
framed bytes = big_endian 4 (length bytes) ++ bytes

pub write_string_done :
    (bytes : List ℕ) (w : Writer)
    → length bytes < 256 ^ 4
    → write_string bytes w ≡ done (w ++ framed bytes)
unfolding write_string write_uint32 write_bytes
write_string_done bytes w h =
    ap (λ c. c >>= λ w'. done (w' ++ bytes)) (write_uint_done 4 (length bytes) w h)
    ∙ ap done (append_assoc w (big_endian 4 (length bytes)) bytes)

pub read_string-framed :
    (bytes w rest : List ℕ)
    → length bytes < 256 ^ 4
    → read_string (at w (framed bytes ++ rest)) ≡ done (bytes, at (w ++ framed bytes) rest)
unfolding read_string read_uint32
read_string-framed bytes w rest h =
    ap (λ xs. read_string (at w xs)) (append_assoc (big_endian 4 (length bytes)) bytes rest)
    ∙ ap (λ c. c >>= λ p. read_bytes p.0 p.1)
        (read_uint-big_endian 4 (length bytes) w (bytes ++ rest) h)
    ∙ read_bytes-append (w ++ big_endian 4 (length bytes)) bytes rest
    ∙ ap (λ u. done (bytes, at u rest)) (append_assoc w (big_endian 4 (length bytes)) bytes)

-- A text of fewer than 2 ^ 32 bytes is written, and whatever is written behind it, a reader that has
-- read what was written before it reads the text and stands behind it.
pub read_string-write_string :
    (bytes : List ℕ) (w rest : List ℕ)
    → length bytes < 256 ^ 4
    → (w' : Writer) × (write_string bytes w ≡ done w')
      × (read_string (record { buffer = w' ++ rest; current = length w })
          ≡ done (bytes, at w' rest))
read_string-write_string bytes w rest h = (
  w ++ framed bytes,
  write_string_done bytes w h,
  ap (λ xs. read_string (record { buffer = xs; current = length w }))
        (append_assoc w (framed bytes) rest)
      ∙ read_string-framed bytes w rest h,
)
