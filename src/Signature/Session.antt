-- ===== src/Signature/Session.antt =====
-- `verify_session`, `verify_account` and `verify_invitation` of src/provablyfine/api/signature.py, with
-- `enforce_key_is_allowed` (crypto_policy.py) and `enforce_not_denied` (model/denylist.py). The rows
-- of the database are arguments, with their keys decoded.
pub mod Laws
pub mod Run
use Prim.Native.String.{◌++◌ as ◌<>◌}
use pf.Base.{
  ℕ, Bool, true, false, not, Option, none, some, List, [], ◌∷◌, ◌++◌, String, ◌==◌, string_eq,
  is_some, leb, if◌then◌else◌,
}
use pf.Http.{Outcome, ok, problem, crash, fail}
use pf.Signature.Message.{Parser, Request, get_keyid}
use pf.Signature.Verify.{Crypto, KeyType, ed25519, Server, public_key_rejected, reject, verify}

-- What the request handler finds in `ctx`.
pub record Context : Type 0 where
  pub identity_id : ℕ
  pub active_role_id : Option ℕ
  pub session_key_id : Option String

module _ (crypto : Crypto) where
  pub record SessionKey : Type 0 where
    pub public_key : crypto.Key
    pub identity_id : ℕ
    pub role_id : Option ℕ
    pub is_revoked : Bool
    pub logged_out_at : Option ℕ
    pub expires_at : ℕ

  pub record AccountKey : Type 0 where
    pub public_key : crypto.Key
    pub identity_id : ℕ
    pub is_revoked : Bool

  pub record Invitation : Type 0 where
    pub key : crypto.Key
    pub identity_id : ℕ
    pub is_revoked : Bool
    pub expires_at : ℕ

  -- The tables that are read; `denied` is whether the denylist has the key.
  pub record Tables : Type 0 where
    pub sessions : String → Option SessionKey
    pub accounts : String → Option AccountKey
    pub invitations : String → Option Invitation
    pub denied : String → Bool

  -- `enforce_key_is_allowed`
  unfoldable pub is_allowed : crypto.Key → Bool
  is_allowed key = elim (crypto.key_type key) [ ed25519 ↦ true | _ ↦ false ]

  module _ (parse : Parser) (tables : Tables) (now : ℕ) (request : Request) where
    -- The call of `verify`, and the context that it opens.
    admit : ℕ → String → crypto.Key → ℕ → Context → Server → Outcome Context × Server
    admit now' key_id key identity_id context s =
        let (o, s') = verify crypto parse now' request key_id key (some identity_id) s in
        elim o [ ok _ ↦ (ok context, s') | problem p ↦ (problem p, s') | crash ↦ (crash, s') ]

    -- From `enforce_key_is_allowed` on, for a key that is stored as `id`; `kind` ends in a colon.
    admit_public :
        ℕ → String → String → crypto.Key → ℕ → Context → Server → Outcome Context × Server
    admit_public now' kind id key identity_id context s =
        if not (is_allowed key)
        then (fail 403 "Key type not supported", s)
        else if not (crypto.thumbprint key == id)
        then (crash, s)
        else if tables.denied (crypto.thumbprint key)
        then (
          fail 403 "Unable to use key",
          record s {
            rejections = s.rejections ++ (public_key_rejected (crypto.thumbprint key) ∷ []);
          },
        )
        else admit now' (kind <> id) key identity_id context s

    -- `now'` is the time that `verify` reads.
    with_session : ℕ → String → Option SessionKey → Server → Outcome Context × Server
    with_session now' id none s = (fail 401 "Session does not exist", s)
    with_session now' id (some k) s =
        if k.is_revoked
        then (
          fail 401 "Session key is revoked",
          reject ("session:" <> id) "revoked" (some k.identity_id) s,
        )
        else if is_some k.logged_out_at
        then (
          fail 401 "Session key is logged out",
          reject ("session:" <> id) "logged-out" (some k.identity_id) s,
        )
        else if leb k.expires_at now
        then (
          fail 401 "Session key is expired",
          reject ("session:" <> id) "expired" (some k.identity_id) s,
        )
        else admit_public now' "session:" id k.public_key k.identity_id
            (record {
              identity_id = k.identity_id;
              active_role_id = k.role_id;
              session_key_id = some id;
            })
            s

    with_account : ℕ → String → Option AccountKey → Server → Outcome Context × Server
    with_account now' id none s = (fail 401 "Account does not exist", s)
    with_account now' id (some k) s =
        if k.is_revoked
        then (
          fail 401 "Account key is revoked",
          reject ("account:" <> id) "revoked" (some k.identity_id) s,
        )
        else admit_public now' "account:" id k.public_key k.identity_id
            (record { identity_id = k.identity_id; active_role_id = none; session_key_id = none }) s

    with_invitation : ℕ → String → Option Invitation → Server → Outcome Context × Server
    with_invitation now' id none s = (fail 401 "Invitation does not exist", s)
    with_invitation now' id (some k) s =
        if k.is_revoked
        then (
          fail 401 "Invitation is revoked",
          reject ("invitation:" <> id) "revoked" (some k.identity_id) s,
        )
        else if leb k.expires_at now
        then (
          fail 401 "Invitation is expired",
          reject ("invitation:" <> id) "expired" (some k.identity_id) s,
        )
        else admit now' ("invitation:" <> id) k.key k.identity_id
            (record { identity_id = k.identity_id; active_role_id = none; session_key_id = none }) s

    with_key_id :
        String → (String → Server → Outcome Context × Server) → Server → Outcome Context × Server
    with_key_id prefix continue s = elim (get_keyid parse request prefix) [
      | ok id ↦ continue id s
      | problem p ↦ (problem p, s)
      | crash ↦ (crash, s)
    ]

    pub verify_session : ℕ → Server → Outcome Context × Server
    verify_session now' s =
        with_key_id "session" (λ id. with_session now' id (tables.sessions id)) s

    pub verify_account : ℕ → Server → Outcome Context × Server
    verify_account now' s =
        with_key_id "account" (λ id. with_account now' id (tables.accounts id)) s

    pub verify_invitation : ℕ → Server → Outcome Context × Server
    verify_invitation now' s =
        with_key_id "invitation" (λ id. with_invitation now' id (tables.invitations id)) s
