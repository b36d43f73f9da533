-- ===== src/Wire/Tests.antt =====
-- Runs of the wire formats, and the theorems at concrete inputs.
use pf.Base.{
  ℕ, all, ltb, if◌then◌else◌, min, ◌≡◌, refl, sym, List, [], ◌∷◌, ◌++◌, length, take, drop,
  take-drop, length-take, nat_eq, arith,
}
use pf.Base.Int.{pos, negsuc}
use pf.Wire.{Call, done, error, crash}
use pf.Wire.Buffer.{Writer, read_string, read_mpint, write_mpint}
use pf.Wire.Buffer.Run.{run}
use pf.Wire.Buffer.Laws.{at, framed}
use pf.Wire.Buffer.Laws.Mpint.{read_mpint-write_mpint}
use pf.Wire.Buffer.Laws.Cut.{read_string-take}
use pf.Wire.Socket.{Transport, message_of, recv_message, send_message}
use pf.Wire.Socket.Laws.{IsStream, message_in, recv_message-message_in}
use pf.Wire.Agent.{read_answer}
use pf.Wire.Agent.Laws.{identities_answer, nothing, next, read_answer-identities_answer}
use pf.Wire.Socket.Sending.{send_message-message_in}

write_run :
    (write_mpint (pos 128) [] ≡ done (0 ∷ 0 ∷ 0 ∷ 2 ∷ 0 ∷ 128 ∷ []))
    × (write_mpint (negsuc 0) [] ≡ done (0 ∷ 0 ∷ 0 ∷ 1 ∷ 255 ∷ []))
    × (write_mpint (negsuc 128) [] ≡ done (0 ∷ 0 ∷ 0 ∷ 2 ∷ 255 ∷ 127 ∷ []))
    × (write_mpint (pos 0) (7 ∷ []) ≡ done (7 ∷ 0 ∷ 0 ∷ 0 ∷ 0 ∷ []))
unfolding run
write_run = (refl, refl, refl, refl)

-- A transport that gives and takes at most three bytes at a time.
abbrev narrow : Transport
narrow = record {
  State = List ℕ × List ℕ;
  recv = λ n s. (take (min n 3) s.0, (drop (min n 3) s.0, s.1));
  send = λ bytes s. (min 3 (length bytes), (s.0, s.1 ++ take (min 3 (length bytes)) bytes));
}

abbrev narrow_stream : IsStream narrow
narrow_stream = record {
  incoming = λ s. s.0;
  outgoing = λ s. s.1;
  recv_next = λ n s. sym (take-drop (min n 3) s.0);
  recv_at_most = λ n s. omega (arith, length-take (min n 3) s.0);
  recv_some = λ n s h k. omega (arith, length-take (min n 3) s.0, h, k);
  send_next = λ bytes s. refl;
  send_at_most = λ bytes s. omega arith;
}

read_mpint-write_mpint_example :
    (w : Writer) × (write_mpint (negsuc 128) (9 ∷ []) ≡ done w)
    × (read_mpint (record { buffer = w ++ (1 ∷ []); current = 1 })
        ≡ done (negsuc 128, at w (1 ∷ [])))
unfolding run
read_mpint-write_mpint_example = read_mpint-write_mpint (negsuc 128) (9 ∷ []) (1 ∷ []) (omega arith)

read_string-take_example :
    read_string (at (9 ∷ []) (take 5 (framed (104 ∷ 105 ∷ []))))
    ≡ error "Unable to parse ssh data buffer"
unfolding run
read_string-take_example = read_string-take (104 ∷ 105 ∷ []) (9 ∷ []) 5 (omega arith) (omega arith)

abbrev frame_bytes : List ℕ
frame_bytes = 0 ∷ 0 ∷ 0 ∷ 3 ∷ 11 ∷ 1 ∷ 2 ∷ 77 ∷ []

recv_message-message_in_example : (recv_message narrow (frame_bytes, [])).0 ≡ message_in frame_bytes
unfolding nat_eq
recv_message-message_in_example = recv_message-message_in narrow narrow_stream (frame_bytes, [])

message_run : message_in frame_bytes ≡ done (record { type = 11; contents = 1 ∷ 2 ∷ [] })
unfolding run message_of
message_run = refl

send_message-message_in_example :
    (s' : List ℕ × List ℕ) × (sent : List ℕ) × (send_message narrow 11 (1 ∷ 2 ∷ []) ([], [])
      ≡ (done tt, s'))
    × (s'.1 ≡ sent)
    × (message_in (sent ++ (77 ∷ [])) ≡ done (record { type = 11; contents = 1 ∷ 2 ∷ [] }))
send_message-message_in_example =
    send_message-message_in narrow narrow_stream (λ bytes s h. omega (arith, h)) 11 (1 ∷ 2 ∷ [])
      (77 ∷ []) ([], []) (omega arith) (omega arith)

-- A key is at least one byte, a comment has bytes below 128.
abbrev a_key : List ℕ → Call (List ℕ)
a_key [] = error "no key"
a_key (b ∷ bs) = done (b ∷ bs)

abbrev ascii : List ℕ → Call (List ℕ)
ascii bytes = if all (λ b. ltb b 128) bytes then done bytes else crash

abbrev two_keys : List (List ℕ × List ℕ)
two_keys = (1 ∷ 2 ∷ [], 104 ∷ []) ∷ (3 ∷ [], []) ∷ []

read_answer-identities_answer_example :
    read_answer a_key ascii (identities_answer two_keys ++ (9 ∷ []))
    ≡ done (
        record { public_key = 1 ∷ 2 ∷ []; comment = 104 ∷ []; raw = 1 ∷ 2 ∷ [] }
        ∷ record { public_key = 3 ∷ []; comment = []; raw = 3 ∷ [] }
        ∷ [])
read_answer-identities_answer_example =
    read_answer-identities_answer a_key ascii two_keys
      (record { public_key = 1 ∷ 2 ∷ []; comment = 104 ∷ []; raw = 1 ∷ 2 ∷ [] }
        ∷ record { public_key = 3 ∷ []; comment = []; raw = 3 ∷ [] }
        ∷ [])
      (9 ∷ []) (next refl refl (next refl refl nothing)) (omega arith) refl
