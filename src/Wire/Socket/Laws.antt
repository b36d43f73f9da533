-- ===== src/Wire/Socket/Laws.antt =====
-- Frames over a stream: what is received depends on the bytes of the peer alone, however the transport
-- cuts them.
use pf.Base.{
  ℕ, zero, suc, ◌-◌, min, ◌≤◌, ◌<◌, ◌≡◌, refl, sym, ◌∙◌, ap, List, [], ◌++◌, String, length,
  length-append, take, drop, append_assoc, append_nil, take_past, drop_past, if◌then◌else◌, ltb,
  ◌==◌, nat_eq, arith, Bool-cases, inl, inr,
}
use pf.Wire.{Call, done, error, crash, ◌>>=◌}
use pf.Wire.Bytes.{from_bytes}
use pf.Wire.Socket.{
  max_message_length, recv_chunk_size, Message, Transport, recv_loop, recv_bytes, message_of,
  recv_payload, recv_length, recv_message,
}

-- What `Transport` promises of `recv` and of `send`: bytes come in order and go in order, a call
-- takes no more than was asked, and none only when the peer is gone.
pub record IsStream (transport : Transport) : Type 0 where
  pub incoming : transport.State → List ℕ
  pub outgoing : transport.State → List ℕ
  pub recv_next :
      (n : ℕ) (s : transport.State)
      → incoming s ≡ (transport.recv n s).0 ++ incoming (transport.recv n s).1
  pub recv_at_most : (n : ℕ) (s : transport.State) → length (transport.recv n s).0 ≤ n
  pub recv_some :
      (n : ℕ) (s : transport.State)
      → 0 < n
      → 0 < length (incoming s)
      → 0 < length (transport.recv n s).0
  pub send_next :
      (bytes : List ℕ) (s : transport.State)
      → outgoing (transport.send bytes s).1 ≡ outgoing s ++ take (transport.send bytes s).0 bytes
  pub send_at_most :
      (bytes : List ℕ) (s : transport.State) → (transport.send bytes s).0 ≤ length bytes

module _ (transport : Transport) (stream : IsStream transport) where
  open transport use {State, recv, send}
  open stream use {incoming, outgoing, recv_next, recv_at_most, recv_some, send_next, send_at_most}

  -- What the round of a loop takes and what it leaves.
  chunk : ℕ → State → List ℕ
  chunk remaining s = (recv (min remaining recv_chunk_size) s).0

  later : ℕ → State → State
  later remaining s = (recv (min remaining recv_chunk_size) s).1

  loop_step :
      (fuel remaining : ℕ) (bytes : List ℕ) (s : State)
      → 0 < remaining
      → 0 < length (chunk remaining s)
      → recv_loop transport (suc fuel) remaining bytes s
        ≡ recv_loop transport fuel
            (remaining - length (chunk remaining s))
            (bytes ++ chunk remaining s)
            (later remaining s)
  unfolding recv_loop chunk later
  loop_step fuel remaining bytes s h k = ground arith

  -- Where enough bytes come, the loop returns the first of them and leaves the others.
  recv_loop_done :
      (fuel remaining : ℕ) (bytes : List ℕ) (s : State)
      → remaining ≤ fuel
      → remaining ≤ length (incoming s)
      → (s' : State) × (recv_loop transport fuel remaining bytes s
          ≡ (done (bytes ++ take remaining (incoming s)), s'))
        × (incoming s' ≡ drop remaining (incoming s))
  unfolding recv_loop nat_eq chunk later
  recv_loop_done zero zero bytes s h k = (s, ap (λ b. (done b, s)) (sym (append_nil bytes)), refl)
  recv_loop_done zero (suc remaining) bytes s h k = absurd (omega arith)
  recv_loop_done (suc fuel) zero bytes s h k =
      (s, ap (λ b. (done b, s)) (sym (append_nil bytes)), refl)
  recv_loop_done (suc fuel) (suc n) bytes s h k =
      let remaining = suc n in
      let p = chunk remaining s in
      let s₁ = later remaining s in
      let size : length p ≤ remaining =
        omega (arith, recv_at_most (min remaining recv_chunk_size) s) in
      let some_come : 0 < length p =
        recv_some (min remaining recv_chunk_size) s (omega arith) (omega arith) in
      let next : incoming s ≡ p ++ incoming s₁ = recv_next (min remaining recv_chunk_size) s in
      let (s', e, left) =
        recv_loop_done fuel (remaining - length p) (bytes ++ p) s₁ (omega arith)
          (omega (arith, ap length next, length-append p (incoming s₁))) in
      (
        s',
        loop_step fuel remaining bytes s (omega arith) some_come
            ∙ e
            ∙ ap (λ b. (done b, s'))
                (append_assoc bytes p (take (remaining - length p) (incoming s₁))
                  ∙ ap (λ b. bytes ++ b)
                      (sym (take_past remaining p (incoming s₁) size)
                        ∙ ap (take remaining) (sym next))),
        left ∙ sym (drop_past remaining p (incoming s₁) size) ∙ ap (drop remaining) (sym next),
      )

  -- Where too few come, the peer is gone.
  recv_loop_short :
      (fuel remaining : ℕ) (bytes : List ℕ) (s : State)
      → remaining ≤ fuel
      → length (incoming s) < remaining
      → (recv_loop transport fuel remaining bytes s).0 ≡ error "Peer closed the connection"
  unfolding recv_loop chunk later
  recv_loop_short zero remaining bytes s h k = absurd (omega arith)
  recv_loop_short (suc fuel) remaining bytes s h k =
      elim (Bool-cases (length (chunk remaining s) == 0)) [
        | inl e ↦ ground arith
        | inr e ↦
            let p = chunk remaining s in
            let s₁ = later remaining s in
            let next : incoming s ≡ p ++ incoming s₁ =
              recv_next (min remaining recv_chunk_size) s in
            let some_come : 0 < length p = ground arith in
            ap (λ c. c.0) (loop_step fuel remaining bytes s (omega arith) some_come)
            ∙ recv_loop_short fuel (remaining - length p) (bytes ++ p) s₁ (omega arith) (
                omega (
                  arith,
                  ap length next,
                  length-append p (incoming s₁),
                  recv_at_most (min remaining recv_chunk_size) s,
                ))
      ]

-- The message that stands at the start of the bytes of a peer.
abbrev pub message_in : List ℕ → Call Message
message_in bytes =
    let n = from_bytes (take 4 bytes) in
    let rest = drop 4 bytes in
    if ltb (length bytes) 4
    then error "Peer closed the connection"
    else if n == 0
    then error "Received an empty message"
    else if ltb max_message_length n
    then error "Received a message frame larger than 262144 bytes"
    else if ltb (length rest) n
    then error "Peer closed the connection"
    else message_of (take n rest)

module _ (transport : Transport) (stream : IsStream transport) where
  open transport use {State}
  open stream use {incoming}

  recv_bytes_done :
      (n : ℕ) (s : State)
      → n ≤ length (incoming s)
      → (s' : State) × (recv_bytes transport n s ≡ (done (take n (incoming s)), s'))
        × (incoming s' ≡ drop n (incoming s))
  unfolding recv_bytes
  recv_bytes_done n s h = recv_loop_done transport stream n n [] s (omega arith) h

  -- The loop, by the bytes that come.
  recv_bytes_result :
      (n : ℕ) (s : State)
      → (recv_bytes transport n s).0 ≡ (
          if ltb (length (incoming s)) n
          then error "Peer closed the connection"
          else done (take n (incoming s)))
  unfolding recv_bytes
  recv_bytes_result n s = elim (Bool-cases (ltb (length (incoming s)) n)) [
    | inl e ↦ rw e (recv_loop_short transport stream n n [] s (omega arith) (ground arith))
    | inr e ↦ let (s', r, left) = recv_bytes_done n s (ground arith) in rw e (ap (λ c. c.0) r)
  ]

  recv_payload_result :
      (c : Call (List ℕ) × State)
      → (recv_payload transport c).0 ≡ (c.0 >>= λ payload. message_of payload)
  unfolding recv_payload
  recv_payload_result (done bytes, s) = refl
  recv_payload_result (error e, s) = refl
  recv_payload_result (crash, s) = refl

  recv_length_error :
      (c : Call (List ℕ) × State) (e : String)
      → c.0 ≡ error e
      → (recv_length transport c).0 ≡ error e
  unfolding recv_length
  recv_length_error (done bytes, s) e h = ground arith
  recv_length_error (error _, s) e h = ground arith
  recv_length_error (crash, s) e h = ground arith

  recv_length_done :
      (bytes : List ℕ) (s : State)
      → (recv_length transport (done bytes, s)).0 ≡ (
          if from_bytes bytes == 0
          then error "Received an empty message"
          else if ltb max_message_length (from_bytes bytes)
          then error "Received a message frame larger than 262144 bytes"
          else if ltb (length (incoming s)) (from_bytes bytes)
          then error "Peer closed the connection"
          else message_of (take (from_bytes bytes) (incoming s)))
  unfolding recv_length
  recv_length_done bytes s = ground (
    arith,
    recv_payload_result (recv_bytes transport (from_bytes bytes) s),
    recv_bytes_result (from_bytes bytes) s,
  )

  -- `recv_message` ends, and its result is the message at the start of the bytes that the peer sends
  -- until it is gone, or the error that these bytes call for, however the transport cuts them.
  pub recv_message-message_in : (s : State) → (recv_message transport s).0 ≡ message_in (incoming s)
  unfolding recv_message
  recv_message-message_in s = elim (Bool-cases (ltb (length (incoming s)) 4)) [
    | inl e ↦ rw e (
        recv_length_error (recv_bytes transport 4 s) "Peer closed the connection"
          (recv_bytes_result 4 s ∙ rw e refl))
    | inr e ↦
        let (s', r, left) = recv_bytes_done 4 s (ground arith) in
        rw (e, r, sym left) (recv_length_done (take 4 (incoming s)) s')
  ]
