-- ===== src/Wire/Agent/Laws.antt =====
-- The answer of an agent is read as the keys that it lists.
use pf.Base.{
  ℕ, ◌^◌, ◌<◌, ◌≡◌, refl, Bool, true, false, List, [], ◌∷◌, ◌++◌, length, length-append,
  append_assoc, all, ltb, ◌&&◌, arith,
}
use pf.Wire.{Call, done}
use pf.Wire.Bytes.{big_endian}
use pf.Wire.Bytes.Laws.{length-big_endian}
use pf.Wire.Buffer.{read_uint32}
use pf.Wire.Buffer.Laws.{at, framed, read_uint-big_endian, read_string-framed}
use pf.Wire.Agent.{Identity, read_identities, read_answer}

-- Each listed key with its comment.
abbrev pub listed : List (List ℕ × List ℕ) → List ℕ
listed [] = []
listed ((raw, comment) ∷ keys) = framed raw ++ (framed comment ++ listed keys)

-- What an agent answers for some keys.
abbrev pub identities_answer : List (List ℕ × List ℕ) → List ℕ
identities_answer keys = big_endian 4 (length keys) ++ listed keys

-- A text that fits into an answer.
abbrev pub is_short : List ℕ × List ℕ → Bool
is_short k = ltb (length k.0) (256 ^ 4) && ltb (length k.1) (256 ^ 4)

read_uint32-big_endian :
    (n : ℕ) (rest : List ℕ)
    → n < 256 ^ 4
    → read_uint32 (at [] (big_endian 4 n ++ rest)) ≡ done (n, at (big_endian 4 n) rest)
unfolding read_uint32
read_uint32-big_endian n rest h = read_uint-big_endian 4 n [] rest h

module _ {Key Text : Type 0} (deserialize : List ℕ → Call Key) (decode : List ℕ → Call Text) where
  -- Each listed key and each listed comment can be read, as the key and the text of an identity.
  pub data AreRead : List (List ℕ × List ℕ) → List (Identity Key Text) → Type 0 where
    nothing : AreRead [] []
    next :
        {raw comment : List ℕ} {key : Key} {text : Text} {keys : List (List ℕ × List ℕ)}
        {ids : List (Identity Key Text)}
        → deserialize raw ≡ done key
        → decode comment ≡ done text
        → AreRead keys ids
        → AreRead
            ((raw, comment) ∷ keys)
            (record { public_key = key; comment = text; raw = raw } ∷ ids)

  read_identities-listed :
      (keys : List (List ℕ × List ℕ)) (ids : List (Identity Key Text)) (w rest : List ℕ)
      → AreRead keys ids
      → all is_short keys ≡ true
      → read_identities deserialize decode (length keys) (at w (listed keys ++ rest)) ≡ done ids
  unfolding read_identities
  read_identities-listed [] [] w rest nothing h = refl
  read_identities-listed [] (i ∷ ids) w rest can_read h = elim can_read [ ]
  read_identities-listed (k ∷ keys) [] w rest can_read h = elim can_read [ ]
  read_identities-listed ((raw, comment) ∷ keys) (i ∷ ids) w rest (next key text more) h =
      let w' = w ++ framed raw in
      let first =
        read_string-framed raw w (framed comment ++ (listed keys ++ rest)) (ground arith) in
      let second = read_string-framed comment w' (listed keys ++ rest) (ground arith) in
      rw
        (
          append_assoc (framed raw) (framed comment ++ listed keys) rest,
          append_assoc (framed comment) (listed keys) rest,
          first,
          key,
          second,
          text,
          read_identities-listed keys ids (w' ++ framed comment) rest more (ground arith),
        )
        refl

  -- Where each listed key can be read by the cryptography package, and each listed comment as UTF-8:
  -- the answer of an agent that lists fewer than 2 ^ 32 keys, keys and comments of fewer than 2 ^ 32
  -- bytes, with anything behind it, is read as these keys in their order, each with its comment and
  -- its bytes.
  pub read_answer-identities_answer :
      (keys : List (List ℕ × List ℕ)) (ids : List (Identity Key Text)) (rest : List ℕ)
      → AreRead keys ids
      → length keys < 256 ^ 4
      → all is_short keys ≡ true
      → read_answer deserialize decode (identities_answer keys ++ rest) ≡ done ids
  unfolding read_answer
  read_answer-identities_answer keys ids rest can_read few short =
      let n = length keys in
      let long_enough : ltb (length (identities_answer keys ++ rest)) 4 ≡ false = ground (
        arith,
        length-append (identities_answer keys) rest,
        length-append (big_endian 4 n) (listed keys),
        length-big_endian 4 n,
      ) in
      rw
        (
          long_enough,
          append_assoc (big_endian 4 n) (listed keys) rest,
          read_uint32-big_endian n (listed keys ++ rest) few,
          read_identities-listed keys ids (big_endian 4 n) rest can_read short,
        )
        refl
