-- ===== src/Wire/Socket/Sending.antt =====
-- A message that is sent is the message that is received.
use pf.Base.{
  ℕ, zero, suc, ◌+◌, ◌^◌, ◌≤◌, ◌<◌, ◌≡◌, sym, ◌∙◌, ap, List, [], ◌∷◌, ◌++◌, length, length-append,
  take, drop, append_assoc, append_nil, take-append, drop-append, take-drop, length-drop, nat_eq,
  arith,
}
use pf.Wire.{done}
use pf.Wire.Bytes.{big_endian}
use pf.Wire.Bytes.Laws.{length-big_endian, from_bytes-big_endian, big_endian_byte}
use pf.Wire.Buffer.{write_uint32, write_byte, write_bytes}
use pf.Wire.Buffer.Laws.{write_uint_done}
use pf.Wire.Socket.{
  max_message_length, Transport, message_of, send_loop, frame, send_frame, send_message,
}
use pf.Wire.Socket.Laws.{IsStream, message_in}

take_four : (n : ℕ) (rest : List ℕ) → take 4 (big_endian 4 n ++ rest) ≡ big_endian 4 n
take_four n rest =
    ap (λ k. take k (big_endian 4 n ++ rest)) (sym (length-big_endian 4 n))
    ∙ take-append (big_endian 4 n) rest

drop_four : (n : ℕ) (rest : List ℕ) → drop 4 (big_endian 4 n ++ rest) ≡ rest
drop_four n rest =
    ap (λ k. drop k (big_endian 4 n ++ rest)) (sym (length-big_endian 4 n))
    ∙ drop-append (big_endian 4 n) rest

-- The bytes of a message.
abbrev framed : ℕ → List ℕ → List ℕ
framed type contents = big_endian 4 (length contents + 1) ++ (type ∷ contents)

message_in-framed :
    (type : ℕ) (contents rest : List ℕ)
    → length contents < max_message_length
    → message_in (framed type contents ++ rest) ≡ done (record { type = type; contents = contents })
unfolding message_of
message_in-framed type contents rest h =
    let n = length contents + 1 in
    let small : n < 256 ^ 4 = omega (arith, h) in
    let split : framed type contents ++ rest ≡ big_endian 4 n ++ (type ∷ (contents ++ rest)) =
      append_assoc (big_endian 4 n) (type ∷ contents) rest in
    let suc_n : n ≡ length (type ∷ contents) = omega arith in
    let first : take n (type ∷ (contents ++ rest)) ≡ type ∷ contents =
      ap (λ k. take k (type ∷ (contents ++ rest))) suc_n ∙ take-append (type ∷ contents) rest in
    rw
      (
        split,
        take_four n (type ∷ (contents ++ rest)),
        drop_four n (type ∷ (contents ++ rest)),
        from_bytes-big_endian 4 n small,
        length-append (big_endian 4 n) (type ∷ (contents ++ rest)),
        length-big_endian 4 n,
        length-append contents rest,
        first,
      )
      (ground (arith, h))

frame_done :
    (type : ℕ) (contents : List ℕ)
    → type < 256
    → length contents < max_message_length
    → frame type contents ≡ done (framed type contents)
unfolding frame write_uint32 write_byte write_bytes
frame_done type contents t h =
    let small : length contents + 1 < 256 ^ 4 = omega (arith, h) in
    rw
      (
        write_uint_done 4 (length contents + 1) [] small,
        write_uint_done 1 type (big_endian 4 (length contents + 1)) (omega arith),
        big_endian_byte type t,
      )
      (ap done (append_assoc (big_endian 4 (length contents + 1)) (type ∷ []) contents))

module _ (transport : Transport) (stream : IsStream transport) where
  open transport use {State, send}
  open stream use {outgoing, send_next, send_at_most}

  -- A peer that is there takes some of what it is sent.
  module _
      (send_some : (bytes : List ℕ) (s : State) → 0 < length bytes → 0 < (send bytes s).0) where
    send_loop_done :
        (fuel : ℕ) (bytes : List ℕ) (s : State)
        → length bytes ≤ fuel
        → (s' : State) × (send_loop transport fuel bytes s ≡ (done tt, s'))
          × (outgoing s' ≡ outgoing s ++ bytes)
    unfolding send_loop
    send_loop_done zero [] s h = (s, ground arith, sym (append_nil (outgoing s)))
    send_loop_done (suc fuel) [] s h = (s, ground arith, sym (append_nil (outgoing s)))
    send_loop_done zero (b ∷ bytes) s h = absurd (omega arith)
    send_loop_done (suc fuel) (b ∷ bytes) s h =
        let bytes' = b ∷ bytes in
        let (n, s₁) = send bytes' s in
        let moved : 0 < n = send_some bytes' s (omega arith) in
        let (s', e, out) =
          send_loop_done fuel (drop n bytes') s₁ (omega (arith, length-drop n bytes', h)) in
        (
          s',
          ground (arith, moved, e),
          out
              ∙ ap (λ o. o ++ drop n bytes') (send_next bytes' s)
              ∙ append_assoc (outgoing s) (take n bytes') (drop n bytes')
              ∙ ap (λ o. outgoing s ++ o) (take-drop n bytes'),
        )

    -- Over a stream whose peer is there, send_message ends and sends all bytes of the message in order;
    -- these bytes, with anything behind them, are received as the message.
    pub send_message-message_in :
        (type : ℕ) (contents rest : List ℕ) (s : State)
        → type < 256
        → length contents < max_message_length
        → (s' : State) × (sent : List ℕ) × (send_message transport type contents s ≡ (done tt, s'))
          × (outgoing s' ≡ outgoing s ++ sent)
          × (message_in (sent ++ rest) ≡ done (record { type = type; contents = contents }))
    unfolding send_message send_frame
    send_message-message_in type contents rest s t h =
        let bytes = framed type contents in
        let (s', e, out) = send_loop_done (length bytes) bytes s (omega arith) in
        (
          s',
          bytes,
          rw (frame_done type contents t h) e,
          out,
          message_in-framed type contents rest h,
        )
