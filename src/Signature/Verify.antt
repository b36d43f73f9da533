-- ===== src/Signature/Verify.antt =====
-- `verify` of src/provablyfine/api/signature.py. The hashes, the keys and their algorithms are
-- parameters; the time that `verify` reads is an argument.
pub mod Laws
pub mod Replay
pub mod Run
use mathlib.Core.List.{foldl}
use pf.Base.{
  ℕ, ◌+◌, Bool, true, false, not, ◌&&◌, ◌||◌, Option, none, some, List, [], ◌∷◌, ◌++◌, String, ◌==◌,
  string_eq, contains, is_some, all, if◌then◌else◌,
}
use pf.Base.Dict.{Dict, lookup, insert, contains_key}
use pf.Base.Int.{ℤ, add_ℕ, le_int, lt_int}
use pf.Http.{Outcome, ok, problem, crash, fail, fail_if, or_fail, ◌>>=◌, ◌>>◌}
use pf.Signature.Message.{
  Value, text, int, InnerList, Parser, Request, parse_signature_input, parse_signature,
  build_signature_base,
}
use pf.Signature.NonceStore.{NonceStore, check_and_add}

abbrev pub freshness_window_seconds : ℕ
freshness_window_seconds = 300

abbrev pub max_future_skew_seconds : ℕ
max_future_skew_seconds = 30

pub data KeyType : Type 0 where
  symmetric ed25519 ecdsa_nistp256 ecdsa_nistp384 ecdsa_nistp521 : KeyType
  rsa_3072 rsa_7680 rsa_15360 : KeyType

-- The types of keys that `verify` has a case for.
abbrev pub is_supported : KeyType → Bool
is_supported symmetric = true
is_supported ed25519 = true
is_supported ecdsa_nistp256 = true
is_supported _ = false

-- What the code takes from hashlib, hmac and cryptography. `check` is `none` where it raises
-- anything but `InvalidSignature`, for instance for a signature that is not bytes.
pub record Crypto : Type 1 where
  pub Key : Type 0
  pub key_type : Key → KeyType
  pub thumbprint : Key → String
  pub digest_header : String → String
  pub check : Key → String → Value → Option Bool

-- What `verify` reads from the headers before it looks at the clock.
pub record Signed : Type 0 where
  pub label : String
  pub inner : InnerList
  pub nonce : String
  pub created : ℤ
  pub signatures : Dict String Value

-- The entries of the audit log about keys that were refused: `_audit_rejection`, with the key as
-- `kind:id`, and that of the denylist.
pub data Rejection : Type 0 where
  key_rejected : String → String → ℕ → Rejection
  public_key_rejected : String → Rejection

pub record Server : Type 0 where
  pub nonce_store : NonceStore
  pub rejections : List Rejection

unfoldable pub reject : String → String → Option ℕ → Server → Server
reject key_id reason none s = s
reject key_id reason (some identity_id) s = record s {
  rejections = s.rejections ++ (key_rejected key_id reason identity_id ∷ []);
}

-- `{keyid: (label, inner) for label, (keyid, inner) in keyid_by_label.items()}`
label_by_keyid : Dict String (String × InnerList) → Dict String (String × InnerList)
label_by_keyid = foldl (λ d e. insert e.1.0 (e.0, e.1.1) d) []

nonce_of : Option Value → Outcome String
nonce_of none = fail 400 "Missing nonce in Signature-Input"
nonce_of (some (text nonce)) = ok nonce
nonce_of (some _) = fail 400 "nonce mistyped in Signature-Input"

created_of : Option Value → Outcome ℤ
created_of none = fail 400 "Missing created in Signature-Input"
created_of (some (int created)) = ok created
created_of (some _) = fail 400 "created mistyped in Signature-Input"

unfoldable pub expected_covered : List String
expected_covered =
    "@authority" ∷ "@method" ∷ "@target-uri" ∷ "@signature-params" ∷ "content-digest" ∷ []

-- `covered == expected_covered`, as sets.
unfoldable pub covers_expected : List String → Bool
unfolding expected_covered
covers_expected items =
    all (λ c. contains expected_covered c) items && all (λ c. contains items c) expected_covered

-- The tests on the clock.
check_time : ℕ → ℤ → Outcome (Unit {0})
check_time now created = do
  fail_if (lt_int (now + max_future_skew_seconds) created) 400 "Signature is too far in the future"
  fail_if (not (le_int now (add_ℕ created freshness_window_seconds))) 400 "Signature is too old"

module _ (crypto : Crypto) (parse : Parser) where
  open crypto use {Key, key_type, digest_header, check}

  pub read_signed : Request → String → Outcome Signed
  read_signed request key_id = do
    content_digest ← or_fail (request.headers "Content-Digest") 400 "Missing Content-Digest header"
    fail_if (not (content_digest == digest_header request.body)) 400
        "Content hash does not match Content-Digest header"
    signature ← or_fail (request.headers "Signature") 400 "Missing Signature header"
    signature_input ←
        or_fail (request.headers "Signature-Input") 400 "Missing Signature-Input header"
    keyid_by_label ← parse_signature_input parse signature_input
    signature_by_label ← parse_signature parse signature
    found ←
        or_fail (lookup key_id (label_by_keyid keyid_by_label)) 400
          "Unable to find keyid in Signature-Input"
    nonce ← nonce_of (lookup "nonce" found.1.params)
    created ← created_of (lookup "created" found.1.params)
    ok (record {
      label = found.0;
      inner = found.1;
      nonce = nonce;
      created = created;
      signatures = signature_by_label;
    })

  -- The signature, and the text that it should sign.
  pub signature_of : Request → Signed → Outcome (Value × String)
  signature_of request p = do
    sig_bytes ← or_fail (lookup p.label p.signatures) 400 "Unable to find label in Signature"
    base ← build_signature_base request p.inner p.inner.shown
    ok (sig_bytes, base)

  -- The last test, which remembers the nonce.
  use_nonce : ℕ → String → Option ℕ → Signed → Server → Outcome (Unit {0}) × Server
  use_nonce now key_id audit_identity_id p s =
      let (store, accepted) = check_and_add s.nonce_store key_id p.nonce now p.created in
      if accepted then (ok tt, record s { nonce_store = store }) else (
        fail 400 "Signature nonce has already been used",
        reject key_id "replayed" audit_identity_id (record s { nonce_store = store }),
      )

  -- What follows the answer of the cryptography.
  after_check : ℕ → String → Option ℕ → Signed → Server → Option Bool → Outcome (Unit {0}) × Server
  after_check now key_id audit_identity_id p s none = (crash, s)
  after_check now key_id audit_identity_id p s (some false) =
      (fail 400 "Invalid signature", reject key_id "invalid-signature" audit_identity_id s)
  after_check now key_id audit_identity_id p s (some true) =
      if not (covers_expected p.inner.items)
      then (fail 400 "Signature does not cover the expected fields", s)
      else use_nonce now key_id audit_identity_id p s

  finish :
      ℕ → String → Key → Option ℕ → Signed → Server → Value × String → Outcome (Unit {0}) × Server
  finish now key_id key audit_identity_id p s (sig_bytes, sig_base) =
      if is_supported (key_type key)
      then after_check now key_id audit_identity_id p s (check key sig_base sig_bytes)
      else (fail 400 "Unsupported key type", s)

  prepare : ℕ → Request → String → Outcome (Signed × Value × String)
  prepare now request key_id = do
    p ← read_signed request key_id
    check_time now p.created
    sig ← signature_of request p
    ok (p, sig.0, sig.1)

  pub verify : ℕ → Request → String → Key → Option ℕ → Server → Outcome (Unit {0}) × Server
  verify now request key_id key audit_identity_id s = elim (prepare now request key_id) [
    | ok (p, sig_bytes, sig_base) ↦
        finish now key_id key audit_identity_id p s (sig_bytes, sig_base)
    | problem e ↦ (problem e, s)
    | crash ↦ (crash, s)
  ]
