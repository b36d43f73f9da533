-- ===== src/Wire/Agent.antt =====
-- The requests of `Client` in src/provablyfine/ssh/agent.py. Keys are read by a parameter, since the
-- package cryptography reads them, and so are texts in UTF-8.
pub mod Laws
use pf.Base.{
  ℕ, zero, suc, Bool, true, false, Option, none, some, List, [], ◌∷◌, ◌++◌, String, length,
  if◌then◌else◌, ltb, ◌==◌, nat_eq,
}
use pf.Wire.{Call, done, error, crash, ◌>>=◌}
use pf.Wire.Buffer.{
  Reader, read_uint32, read_string, Writer, write_byte, write_uint32, write_string, write_bytes,
}
use pf.Wire.Socket.{Message, Transport, recv_message, send_message}

-- `send_message` and then `recv_message`; the contents of the request may fail to be written.
transact :
    (transport : Transport) → ℕ → Call (List ℕ) → transport.State → Call Message × transport.State
transact transport type (error e) s = (error e, s)
transact transport type crash s = (crash, s)
transact transport type (done contents) s =
    let (sent, s') = send_message transport type contents s in
    let received = recv_message transport s' in
    elim sent [ done _ ↦ received | error e ↦ (error e, s') | crash ↦ (crash, s') ]

-- A failure is message type 5; what is shown leaves out its bytes.
unless_failed : String → Call Message → Call Message
unless_failed e rx = do m ← rx; if m.type == 5 then error e else done m

pub record Identity (Key Text : Type 0) : Type 0 where
  pub public_key : Key
  pub comment : Text
  pub raw : List ℕ

module _ {Key Text : Type 0} (deserialize : List ℕ → Call Key) (decode : List ℕ → Call Text) where
  -- The loop of `list_identities`, run to its end: an error gives no identity.
  read_identities : ℕ → Reader → Call (List (Identity Key Text))
  read_identities zero r = done []
  read_identities (suc n) r = do
    raw ← read_string r
    key ← deserialize raw.0
    comment ← read_string raw.1
    text ← decode comment.0
    rest ← read_identities n comment.1
    done (record { public_key = key; comment = text; raw = raw.0 } ∷ rest)

  -- The answer, after its type.
  pub read_answer : List ℕ → Call (List (Identity Key Text))
  unfolding read_identities
  read_answer contents =
      if ltb (length contents) 4
      then crash
      else do n ← read_uint32 (record { buffer = contents; current = 0 }); read_identities n.0 n.1

  answer : Call Message → Call (List (Identity Key Text))
  unfolding read_answer
  answer rx = do m ← rx; if m.type == 12 then read_answer m.contents else crash

  pub list_identities :
      (transport : Transport) → transport.State → Call (List (Identity Key Text)) × transport.State
  unfolding answer transact
  list_identities transport s = let (rx, s') = transact transport 11 (done []) s in (answer rx, s')

-- The request of `sign`.
pub sign_request : List ℕ → List ℕ → ℕ → Call Writer
sign_request raw bytes flags = do
  w ← write_string raw []
  w' ← write_string bytes w
  write_uint32 flags w'

-- The signature in the answer to `sign`.
read_signature : Message → Call (List ℕ)
read_signature m = do
  size ← read_uint32 (record { buffer = m.contents; current = 0 })
  key_type ← read_string size.1
  signature ← read_string key_type.1
  done signature.0

with_lifetime : Option ℕ → Writer → Call (ℕ × Writer)
with_lifetime none w = done (17, w)
with_lifetime (some seconds) w = do w₁ ← write_byte 1 w; w₂ ← write_uint32 seconds w₁; done (25, w₂)

with_confirmation : Bool → ℕ → Writer → Call (ℕ × Writer)
with_confirmation false type w = done (type, w)
with_confirmation true type w = do w' ← write_byte 2 w; done (25, w')

-- The request of `_add`, with its message type: 25 where it is constrained.
pub add_request : List ℕ → List ℕ → Option ℕ → Bool → Call (ℕ × Writer)
unfolding with_lifetime with_confirmation
add_request key comment lifetime require_confirmation = do
  w ← write_string comment (write_bytes key [])
  limited ← with_lifetime lifetime w
  with_confirmation require_confirmation limited.0 limited.1

module _ (transport : Transport) where
  open transport use {State}

  pub sign : List ℕ → List ℕ → ℕ → State → Call (List ℕ) × State
  unfolding transact unless_failed read_signature sign_request
  sign raw bytes flags s =
      let (rx, s') = transact transport 13 (sign_request raw bytes flags) s in
      ((do m ← unless_failed "Unable to obtain signature from agent" rx; read_signature m), s')

  send_add : Call (ℕ × Writer) → State → Call (Unit {0}) × State
  unfolding transact unless_failed
  send_add (error e) s = (error e, s)
  send_add crash s = (crash, s)
  send_add (done (type, contents)) s =
      let (rx, s') = transact transport type (done contents) s in
      ((do m ← unless_failed "Unable to add key to agent" rx; done tt), s')

  pub add : List ℕ → List ℕ → Option ℕ → Bool → State → Call (Unit {0}) × State
  unfolding send_add add_request
  add key comment lifetime require_confirmation =
      send_add (add_request key comment lifetime require_confirmation)

  pub remove_all : State → Call (Unit {0}) × State
  unfolding transact unless_failed
  remove_all s =
      let (rx, s') = transact transport 19 (done []) s in
      ((do m ← unless_failed "Unable to remove keys from agent" rx; done tt), s')

  pub remove : List ℕ → State → Call (Unit {0}) × State
  unfolding transact unless_failed
  remove raw s =
      let (rx, s') = transact transport 18 (write_string raw []) s in
      ((do m ← unless_failed "Unable to remove key from agent" rx; done tt), s')
