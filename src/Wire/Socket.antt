-- ===== src/Wire/Socket.antt =====
-- `WireSocket` of src/provablyfine/ssh/wire.py. The transport below it, a socket or a pipe, is a
-- parameter.
pub mod Laws
pub mod Sending
use pf.Base.{
  ℕ, zero, suc, ◌+◌, ◌-◌, ◌*◌, min, List, [], ◌∷◌, ◌++◌, length, drop, if◌then◌else◌, ltb, ◌==◌,
  nat_eq,
}
use pf.Wire.{Call, done, error, crash, ◌>>=◌}
use pf.Wire.Bytes.{from_bytes}
use pf.Wire.Buffer.{Writer, write_uint32, write_byte, write_bytes}

-- `MAX_MESSAGE_LENGTH`
abbrev pub max_message_length : ℕ
max_message_length = 256 * 1024

-- `RECV_CHUNK_SIZE`
abbrev pub recv_chunk_size : ℕ
recv_chunk_size = 64 * 1024

pub record Message : Type 0 where
  pub type : ℕ
  pub contents : List ℕ

pub record Transport : Type 1 where
  pub State : Type 0
  pub recv : ℕ → State → List ℕ × State
  pub send : List ℕ → State → ℕ × State

-- `Message(type=payload[0], contents=payload[1:])`
unfoldable pub message_of : List ℕ → Call Message
message_of [] = crash
message_of (b ∷ payload) = done (record { type = b; contents = payload })

-- The frame of a message.
unfoldable pub frame : ℕ → List ℕ → Call Writer
frame type contents = do
  w ← write_uint32 (length contents + 1) []
  w' ← write_byte type w
  done (write_bytes contents w')

module _ (transport : Transport) where
  open transport use {State, recv, send}

  -- The loop of `_recv_bytes`. Each round takes at least one byte, so that as many rounds as bytes
  -- that are missing are enough.
  pub recv_loop : ℕ → ℕ → List ℕ → State → Call (List ℕ) × State
  recv_loop zero remaining bytes s = (if remaining == 0 then done bytes else crash, s)
  recv_loop (suc fuel) remaining bytes s =
      let (partial, s') = recv (min remaining recv_chunk_size) s in
      let later = recv_loop fuel (remaining - length partial) (bytes ++ partial) s' in
      if remaining == 0
      then (done bytes, s)
      else if length partial == 0
      then (error "Peer closed the connection", s')
      else later

  pub recv_bytes : ℕ → State → Call (List ℕ) × State
  unfolding recv_loop
  recv_bytes n s = recv_loop n n [] s

  recv_payload : Call (List ℕ) × State → Call Message × State
  unfolding message_of
  recv_payload (done payload, s) = (message_of payload, s)
  recv_payload (error e, s) = (error e, s)
  recv_payload (crash, s) = (crash, s)

  recv_length : Call (List ℕ) × State → Call Message × State
  unfolding recv_bytes recv_payload
  recv_length (done bytes, s) =
      let n = from_bytes bytes in
      if n == 0
      then (error "Received an empty message", s)
      else if ltb max_message_length n
      then (error "Received a message frame larger than 262144 bytes", s)
      else recv_payload (recv_bytes n s)
  recv_length (error e, s) = (error e, s)
  recv_length (crash, s) = (crash, s)

  pub recv_message : State → Call Message × State
  unfolding recv_length
  recv_message s = recv_length (recv_bytes 4 s)

  -- The loop of `send_message` over what is not sent yet; each round sends at least one byte.
  pub send_loop : ℕ → List ℕ → State → Call (Unit {0}) × State
  send_loop zero bytes s = (if length bytes == 0 then done tt else crash, s)
  send_loop (suc fuel) bytes s =
      let (sent, s') = send bytes s in
      let later = send_loop fuel (drop sent bytes) s' in
      if length bytes == 0
      then (done tt, s)
      else if sent == 0
      then (error "Unable to write message", s')
      else later

  send_frame : Call Writer → State → Call (Unit {0}) × State
  unfolding send_loop
  send_frame (done bytes) s = send_loop (length bytes) bytes s
  send_frame (error e) s = (error e, s)
  send_frame crash s = (crash, s)

  pub send_message : ℕ → List ℕ → State → Call (Unit {0}) × State
  unfolding send_frame frame
  send_message type contents s = send_frame (frame type contents) s
