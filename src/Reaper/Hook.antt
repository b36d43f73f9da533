-- ===== src/Reaper/Hook.antt =====
-- The hook that runs when a session opens or closes on Linux:
-- src/provablyfine/cli/pf/openssh_pam_session_deadline_linux.py.
pub mod Endings
use pf.Base.{
  ℕ, ◌-◌, String, Bool, true, false, not, ◌&&◌, ◌||◌, leb, if◌then◌else◌, ◌==◌, nat_eq, string_eq,
  contains, is_some, Option, none, some, List, [], ◌∷◌, ◌++◌,
}
use Prim.Native.Char.{code}
use Prim.Native.String.{◌++◌ as ◌<>◌}
use pf.Reaper.Spool.{EventKind, start, end}

-- What the hook reads of a certificate.
pub record SessionCert : Type 0 where
  pub session_deadline : Option ℕ
  pub connection_id : Option String
  pub signer : String

-- The arguments of the hook, and what it reads of its surroundings; a missing XDG_SESSION_ID is
-- the empty text here, as for the hook.
pub record Surroundings : Type 0 where
  pub live_events : Bool
  pub sessions : Bool
  pub trusted : List String
  -- SSH_AUTH_INFO_0 and those after it
  pub auth_info : List String
  pub session_id : String
  -- in seconds, at the report and at the deadline
  pub reports_at : ℕ
  pub now : ℕ

pub data Action : Type 0 where
  reported : EventKind → String → String → ℕ → Action
  recorded : String → String → Action
  unrecorded : String → String → Action
  -- `loginctl terminate-session`
  terminated : String → Action
  -- `systemd-run`, with the connection, the session and the seconds until it is ended
  timer : String → String → ℕ → Action
  timer_stopped : String → Action

abbrev pub in_front : String → Option (String × String) → Option (String × String)
in_front c none = none
in_front c (some (a, b)) = some (c <> a, b)

-- `s.split(" ", 1)`, if there are two parts.
unfoldable pub cut : String → Option (String × String)
cut String.[] = none
cut (String.◌∷◌ c s) =
    let rest = cut s in if code c == 32 then some ("", s) else in_front (String.◌∷◌ c "") rest

unfoldable pub ends_with : String → String → Bool
ends_with suffix String.[] = "" == suffix
ends_with suffix (String.◌∷◌ c s) = String.◌∷◌ c s == suffix || ends_with suffix s

abbrev pub if_certificate : String → Option (String × String) → Option String
if_certificate method none = none
if_certificate method (some (key_type, blob)) =
    if method == "publickey" && ends_with "-cert-v01@openssh.com" key_type then some blob else none

abbrev pub after_method : Option (String × String) → Option String
after_method none = none
after_method (some (method, rest)) = if_certificate method (cut rest)

-- The certificate that a line holds, in base 64.
unfoldable pub certificate_of : String → Option String
certificate_of line = after_method (cut line)

-- `_cert_from_auth_info`: the first line that holds a certificate decides. `parse` decodes and
-- parses it.
unfoldable pub cert_from_auth_info :
    (String → Option SessionCert) → List String → Option SessionCert
cert_from_auth_info parse [] = none
cert_from_auth_info parse (line ∷ lines) = elim (certificate_of line) [
  | none ↦ cert_from_auth_info parse lines
  | some blob ↦ parse blob
]

module _ (h : Surroundings) where
  -- `_report`
  abbrev pub report : EventKind → String → List Action
  report kind connection_id =
      if h.live_events then reported kind connection_id h.session_id h.reports_at ∷ [] else []

  abbrev pub has_session : Bool
  has_session = not (h.session_id == "")

  abbrev pub announce : Option String → List Action
  announce none = []
  announce (some connection_id) =
      report start connection_id
      ++ (if h.sessions && has_session then recorded connection_id h.session_id ∷ [] else [])

  abbrev pub end_at : String → ℕ → List Action
  end_at connection_id deadline =
      if leb deadline h.now
      then terminated h.session_id ∷ []
      else timer connection_id h.session_id (deadline - h.now) ∷ []

  abbrev pub set_deadline : Option ℕ → Option String → List Action
  set_deadline none connection_id = []
  set_deadline (some deadline) none = []
  set_deadline (some deadline) (some connection_id) =
      if has_session then end_at connection_id deadline else []

  -- There is no deadline, and nobody to tell about the session.
  abbrev pub is_untold : SessionCert → Bool
  is_untold cert =
      not (is_some cert.session_deadline)
      && (not (is_some cert.connection_id) || not h.live_events && not h.sessions)

  abbrev pub open_with : Option SessionCert → List Action
  open_with none = []
  open_with (some cert) =
      if is_untold cert
      then []
      else (if not (contains h.trusted cert.signer)
          then []
          else announce cert.connection_id ++ set_deadline cert.session_deadline cert.connection_id)

  -- `_handle_open_session`
  unfoldable pub handle_open_session : (String → Option SessionCert) → List Action
  handle_open_session parse = open_with (cert_from_auth_info parse h.auth_info)

  abbrev pub stop_timer : String → Option ℕ → List Action
  stop_timer connection_id none = []
  stop_timer connection_id (some deadline) = timer_stopped connection_id ∷ []

  abbrev pub close_connection : Option String → Option ℕ → List Action
  close_connection none deadline = []
  close_connection (some connection_id) deadline =
      report end connection_id
      ++ ((if h.sessions && has_session then unrecorded connection_id h.session_id ∷ [] else [])
          ++ stop_timer connection_id deadline)

  abbrev pub close_with : Option SessionCert → List Action
  close_with none = []
  close_with (some cert) = close_connection cert.connection_id cert.session_deadline

  -- `_handle_close_session`
  unfoldable pub handle_close_session : (String → Option SessionCert) → List Action
  handle_close_session parse = close_with (cert_from_auth_info parse h.auth_info)
