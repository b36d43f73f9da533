-- ===== src/Signature/Tests.antt =====
-- Runs of `verify` with small parameters in place of the parser and the cryptography, and the
-- theorems at concrete inputs.
use pf.Base.{
  ℕ, ◌≡◌, ◌≢◌, refl, ◌↔◌, ◌⊎◌, false, none, some, [], ◌∷◌, String, ◌==◌, string_eq, pair_eq,
  if◌then◌else◌,
}
use pf.Base.Int.{pos}
use pf.Http.{ok, fail}
use pf.Signature.Message.{text, bytes, int, inner_list, item, Parser, Request}
use pf.Signature.NonceStore.Laws.{Call}
use pf.Signature.Verify.{Crypto, ed25519, Server, Signed, verify, key_rejected}
use pf.Signature.Verify.Laws.{IsVerified, IsConsulted, verify_iff, verify_store}
use pf.Signature.Verify.Replay.{Attempt, attempt, attempts, replay_refused}
use pf.Signature.Session.{Context, SessionKey, Tables, verify_session, is_allowed}
use pf.Signature.Session
use pf.Signature.Session.Laws.{IsAuthenticated, verify_session-IsAuthenticated}

-- Every signature "good" is valid, and a body is its own digest.
abbrev crypto : Crypto
crypto = record {
  Key = ℕ;
  key_type = λ key. ed25519;
  thumbprint = λ key. "k";
  digest_header = λ body. body;
  check = λ key base v. elim v [ bytes b ↦ some (b == "good") | _ ↦ none ];
}

-- The two headers that the requests below carry.
abbrev parse : Parser
parse header =
    if header == "input"
    then some (
        (
          "sig1",
          inner_list (record {
            items =
                "@authority" ∷ "@method" ∷ "@target-uri" ∷ "@signature-params" ∷ "content-digest"
                ∷ [];
            params =
                ("keyid", text "session:k")
                ∷ ("nonce", text "n")
                ∷ ("created", int (pos 1000))
                ∷ [];
            shown = "(…)";
          }),
        )
        ∷ [])
    else if header == "good"
    then some (("sig1", item (bytes "good")) ∷ [])
    else if header == "bad"
    then some (("sig1", item (bytes "bad")) ∷ [])
    else none

abbrev request : String → Request
request signature = record {
  method = "GET";
  netloc = "example.net";
  url = "https://example.net/ssh";
  headers = λ name.
      if name == "Signature-Input"
      then some "input"
      else if name == "Signature"
      then some signature
      else some "";
  body = "";
}

abbrev server : Server
server = record {
  nonce_store = record { window_seconds = 300; started_at = 500; seen = [] };
  rejections = [];
}

-- The server after the request was accepted at time 1010.
abbrev after : Server
after = record {
  nonce_store = record {
    window_seconds = 300;
    started_at = 500;
    seen = (("session:k", "n"), pos 1300) ∷ [];
  };
  rejections = [];
}

abbrev at : ℕ → String → Attempt crypto parse
at now signature = record {
  now = now;
  request = request signature;
  key_id = "session:k";
  key = 0;
  audit_identity_id = some 7;
}

verify_tests :
    (attempt crypto parse server (at 1010 "good") ≡ (ok tt, after))
    × (attempt crypto parse after (at 1020 "good") ≡ (
      fail 400 "Signature nonce has already been used",
      record after { rejections = key_rejected "session:k" "replayed" 7 ∷ [] },
    ))
    × (attempt crypto parse server (at 1301 "good") ≡ (fail 400 "Signature is too old", server))
    × (attempt crypto parse server (at 969 "good")
        ≡ (fail 400 "Signature is too far in the future", server))
    × (attempt crypto parse server (at 1010 "bad") ≡ (
      fail 400 "Invalid signature",
      record server { rejections = key_rejected "session:k" "invalid-signature" 7 ∷ [] },
    ))
    × (attempt crypto parse server (at 1010 "none") ≡ (fail 400 "Invalid Signature header", server))
unfolding Session.Run.run
verify_tests = (refl, refl, refl, refl, refl, refl)

abbrev tables : Tables crypto
tables = record {
  sessions = λ id.
      if id == "k"
      then some (record {
        public_key = 0;
        identity_id = 7;
        role_id = some 2;
        is_revoked = false;
        logged_out_at = none;
        expires_at = 2000;
      })
      else none;
  accounts = λ id. none;
  invitations = λ id. none;
  denied = λ id. false;
}

abbrev context : Context
context = record { identity_id = 7; active_role_id = some 2; session_key_id = some "k" }

session_tests :
    (verify_session crypto parse tables 1010 (request "good") 1010 server ≡ (ok context, after))
    × (verify_session crypto parse tables 2000 (request "good") 2000 server ≡ (
      fail 401 "Session key is expired",
      record server { rejections = key_rejected "session:k" "expired" 7 ∷ [] },
    ))
unfolding Session.Run.run
session_tests = (refl, refl)

abbrev call_at : ℕ → ℕ → Call
call_at now created = record { key_id = "session:k"; nonce = "n"; now = now; created = pos created }

verify_iff_example :
    (verify crypto parse 1010 (request "good") "session:k" 0 (some 7) server ≡ (ok tt, after))
    ↔ IsVerified crypto parse 1010 (request "good") "session:k" 0 (some 7) server after
verify_iff_example =
    verify_iff crypto parse 1010 (request "good") "session:k" 0 (some 7) server after

verify_store_example :
    let s' = (verify crypto parse 1010 (request "bad") "session:k" 0 (some 7) server).1 in
    (s'.nonce_store ≡ server.nonce_store)
    ⊎ IsConsulted crypto parse 1010 (request "bad") "session:k" 0 (some 7) server s'
verify_store_example = verify_store crypto parse 1010 (request "bad") "session:k" 0 (some 7) server

abbrev signed : Signed
signed = record {
  label = "sig1";
  inner = record {
    items = "@authority" ∷ "@method" ∷ "@target-uri" ∷ "@signature-params" ∷ "content-digest" ∷ [];
    params = ("keyid", text "session:k") ∷ ("nonce", text "n") ∷ ("created", int (pos 1000)) ∷ [];
    shown = "(…)";
  };
  nonce = "n";
  created = pos 1000;
  signatures = ("sig1", bytes "good") ∷ [];
}

replay_refused_example :
    (attempt crypto parse
      (attempts crypto parse (attempt crypto parse server (at 1010 "good")).1 (at 1100 "bad" ∷ []))
      (at 1250 "good")).0
    ≢ ok tt
unfolding Session.Run.run
replay_refused_example =
    replay_refused crypto parse server (at 1010 "good") (at 1250 "good") (at 1100 "bad" ∷ []) signed
      signed refl refl refl refl refl refl refl refl

verify_session-IsAuthenticated_example :
    IsAuthenticated crypto parse tables 1010 1010 (request "good") server after context
unfolding Session.Run.run
verify_session-IsAuthenticated_example =
    verify_session-IsAuthenticated crypto parse tables 1010 1010 (request "good") server after
      context refl
