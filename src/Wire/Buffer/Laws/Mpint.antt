-- ===== src/Wire/Buffer/Laws/Mpint.antt =====
-- Integers of any size and sign go through `write_mpint` and `read_mpint`.
use pf.Base.{
  ℕ, zero, suc, ◌+◌, ◌-◌, ◌*◌, ◌/◌, ◌^◌, ◌≤◌, ◌<◌, ◌≡◌, refl, ◌∙◌, ap, true, List, [], ◌∷◌, ◌++◌,
  length, if◌then◌else◌, leb, ◌==◌, nat_eq, arith, Bool-cases, inl, inr,
}
use pf.Base.Int.{ℤ, pos, negsuc}
use native.Mathlib.Nat.{pow-succ', pow-le-pow_right}
use pf.Wire.{done}
use pf.Wire.Bytes.{big_endian, to_bytes, from_bytes, to_bytes_negative, from_bytes_signed}
use pf.Wire.Bytes.Laws.{
  length-big_endian, from_bytes-big_endian, big_endian-IsBytes, IsBytes, first_byte,
  from_bytes_bound,
}
use pf.Wire.Buffer.{
  read_mpint, Writer, write_string, bit_length_loop, bit_length, padded, write_mpint,
}
use pf.Wire.Buffer.Laws.{at, read_string-write_string}

bit_length_loop_bound : (fuel n : ℕ) → n ≤ fuel → n < 2 ^ bit_length_loop fuel n
unfolding bit_length_loop
bit_length_loop_bound zero n h = omega arith
bit_length_loop_bound (suc fuel) n h = elim (Bool-cases (n == 0)) [
  | inl e ↦ ground arith
  | inr e ↦ rw e (
      let smaller : n / 2 ≤ fuel = ground arith in
      omega (
        arith,
        bit_length_loop_bound fuel (n / 2) smaller,
        pow-succ' 2 (bit_length_loop fuel (n / 2)),
      ))
]

two_pow_bytes : (k : ℕ) → 2 ^ (8 * k) ≡ 256 ^ k
two_pow_bytes zero = refl
two_pow_bytes (suc k) =
    let b = 8 * k in
    let e : 8 * suc k ≡ suc (suc (suc (suc (suc (suc (suc (suc b))))))) = omega arith in
    ap (λ n. 2 ^ n) e
    ∙ omega (
      arith,
      two_pow_bytes k,
      pow-succ' 256 k,
      pow-succ' 2 b,
      pow-succ' 2 (suc b),
      pow-succ' 2 (suc (suc b)),
      pow-succ' 2 (suc (suc (suc b))),
      pow-succ' 2 (suc (suc (suc (suc b)))),
      pow-succ' 2 (suc (suc (suc (suc (suc b))))),
      pow-succ' 2 (suc (suc (suc (suc (suc (suc b)))))),
      pow-succ' 2 (suc (suc (suc (suc (suc (suc (suc b))))))),
    )

-- Enough bytes for that many bits.
pow_bytes : (bits k : ℕ) → bits ≤ 8 * k → 2 ^ bits ≤ 256 ^ k
pow_bytes bits k h =
    let wider : 2 ^ bits ≤ 2 ^ (8 * k) = pow-le-pow_right (omega arith) h in
    omega (arith, wider, two_pow_bytes k)

abbrev magnitude : ℤ → ℕ
magnitude (pos n) = n
magnitude (negsuc m) = suc m

-- What `write_mpint` hands to `write_string`.
abbrev Stands : ℤ → List ℕ → Type 0
Stands n buffer =
    (length buffer < 256 ^ 4)
    × ((if length buffer == 0 then pos 0 else from_bytes_signed buffer) ≡ n)

signed-pos :
    (buffer : List ℕ) (n : ℕ)
    → 0 < n
    → from_bytes buffer ≡ n
    → 2 * n < 256 ^ length buffer
    → (if length buffer == 0 then pos 0 else from_bytes_signed buffer) ≡ pos n
unfolding from_bytes_signed
signed-pos [] n p e h = absurd (omega arith)
signed-pos (b ∷ bytes) n p e h = rw e (ground arith)

padded_done :
    (n : ℕ) (bytes : List ℕ)
    → 0 < n
    → from_bytes bytes ≡ n
    → IsBytes bytes
    → suc (length bytes) < 256 ^ 4
    → (buffer : List ℕ) × (padded bytes ≡ done buffer) × Stands (pos n) buffer
unfolding padded from_bytes
padded_done n [] p e i l =
    let low : from_bytes [] < 256 ^ 0 = from_bytes_bound [] refl in absurd (omega (arith, low))
padded_done n (b ∷ bytes) p e i l = elim (Bool-cases (leb 128 b)) [
  | inl c ↦ (
    0 ∷ b ∷ bytes,
    ground arith,
    (
      l,
      signed-pos (0 ∷ b ∷ bytes) n p e
          (omega (arith, from_bytes_bound (b ∷ bytes) i, pow-succ' 256 (suc (length bytes)), e)),
    ),
  )
  | inr c ↦ (
    b ∷ bytes,
    ground arith,
    (
      omega (arith, l),
      signed-pos (b ∷ bytes) n p e
          (omega (arith, first_byte b bytes (ground arith) (ground arith), e)),
    ),
  )
]

to_bytes_done : (n k : ℕ) → n < 256 ^ k → to_bytes n k ≡ done (big_endian k n)
unfolding to_bytes
to_bytes_done n k h = ground arith

-- What stands for a number and is shorter than 2 ^ 32 is written for it.
Written : ℤ → Type 0
Written n =
    (buffer : List ℕ) × Stands n buffer × ((w : Writer) → write_mpint n w ≡ write_string buffer w)

positive-Written : (n : ℕ) → bit_length (suc n) ≤ 8 * (256 ^ 4 - 2) → Written (pos (suc n))
unfolding Written write_mpint bit_length
positive-Written n h =
    let k = (bit_length (suc n) + 7) / 8 in
    let fits : suc n < 256 ^ k = omega (
      arith,
      bit_length_loop_bound (suc n) (suc n) (omega arith),
      pow_bytes (bit_length (suc n)) k (omega arith),
    ) in
    let (buffer, e, stands) =
      padded_done (suc n) (big_endian k (suc n)) (omega arith)
        (from_bytes-big_endian k (suc n) fits) (big_endian-IsBytes k (suc n))
        (omega (arith, length-big_endian k (suc n))) in
    (buffer, stands, λ w. rw (to_bytes_done (suc n) k fits, e) refl)

signed-neg :
    (buffer : List ℕ) (m : ℕ)
    → from_bytes buffer + suc m ≡ 256 ^ length buffer
    → 2 * suc m ≤ 256 ^ length buffer
    → (if length buffer == 0 then pos 0 else from_bytes_signed buffer) ≡ negsuc m
unfolding from_bytes_signed
signed-neg [] m e h = absurd (omega arith)
signed-neg (b ∷ bytes) m e h =
    let upper : leb (256 ^ suc (length bytes)) (2 * from_bytes (b ∷ bytes)) ≡ true =
      ground (arith, e, h) in
    let distance : 256 ^ suc (length bytes) - from_bytes (b ∷ bytes) ≡ suc m = omega (arith, e) in
    rw (upper, distance) (ground arith)

to_bytes_negative_done :
    (m k : ℕ) → 2 * suc m ≤ 256 ^ k → to_bytes_negative m k ≡ done (big_endian k (256 ^ k - suc m))
unfolding to_bytes_negative
to_bytes_negative_done m k h = ground arith

negative-Written : (m : ℕ) → bit_length (suc m) ≤ 8 * (256 ^ 4 - 2) → Written (negsuc m)
unfolding Written write_mpint bit_length
negative-Written m h =
    let bits = bit_length (suc m) in
    let k = (bits + 7 + 1) / 8 in
    let fits : 2 * suc m ≤ 256 ^ k = omega (
      arith,
      bit_length_loop_bound (suc m) (suc m) (omega arith),
      pow-succ' 2 bits,
      pow_bytes (suc bits) k (omega arith),
    ) in
    let buffer = big_endian k (256 ^ k - suc m) in
    let size : length buffer ≡ k = length-big_endian k (256 ^ k - suc m) in
    let value : from_bytes buffer ≡ 256 ^ k - suc m =
      from_bytes-big_endian k (256 ^ k - suc m) (omega (arith, fits)) in
    (
      buffer,
      (
        omega (arith, size, h),
        signed-neg buffer m (rw size (omega (arith, value, fits))) (rw size fits),
      ),
      λ w. rw (to_bytes_negative_done m k fits) refl,
    )

mpint-Written : (n : ℤ) → bit_length (magnitude n) ≤ 8 * (256 ^ 4 - 2) → Written n
unfolding Written write_mpint nat_eq
mpint-Written (pos zero) h = ([], (omega arith, refl), λ w. refl)
mpint-Written (pos (suc n)) h = positive-Written n h
mpint-Written (negsuc m) h = negative-Written m h

-- An integer of any sign, of up to 8 * (2 ^ 32 - 2) bits, is written, and whatever is written behind
-- it, a reader that has read what was written before it reads the integer and stands behind it.
pub read_mpint-write_mpint :
    (n : ℤ) (w rest : List ℕ)
    → bit_length (magnitude n) ≤ 8 * (256 ^ 4 - 2)
    → (w' : Writer) × (write_mpint n w ≡ done w')
      × (read_mpint (record { buffer = w' ++ rest; current = length w }) ≡ done (n, at w' rest))
unfolding read_mpint Written
read_mpint-write_mpint n w rest h =
    let (buffer, (short, stands), written) = mpint-Written n h in
    let (w', e, read) = read_string-write_string buffer w rest short in
    (w', written w ∙ e, rw (read, stands) refl)
