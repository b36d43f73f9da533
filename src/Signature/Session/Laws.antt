-- ===== src/Signature/Session/Laws.antt =====
-- Whom a session authenticates.
use Prim.Native.String.{◌++◌ as ◌<>◌}
use pf.Base.{ℕ, ◌<◌, ◌≡◌, refl, false, Option, none, some, String, string_eq, arith, inl, inr}
use pf.Http.{ok, Outcome-cases}
use pf.Signature.Message.{Parser, Request, get_keyid}
use pf.Signature.Verify.{Crypto, ed25519, Server, verify}
use pf.Signature.Session.{
  Context, SessionKey, Tables, is_allowed, admit, admit_public, with_session, with_key_id,
  verify_session,
}

module _ (crypto : Crypto) (parse : Parser) (tables : Tables crypto) (now now' : ℕ)
    (request : Request) (s s' : Server) where
  -- The session key that the request names, and why it is good.
  pub record IsAuthenticated (context : Context) : Type 0 where
    pub id : String
    pub session : SessionKey crypto
    pub named : get_keyid parse request "session" ≡ ok id
    pub known : tables.sessions id ≡ some session
    pub unrevoked : session.is_revoked ≡ false
    pub logged_in : session.logged_out_at ≡ none
    pub unexpired : now < session.expires_at
    pub is_ed25519 : crypto.key_type session.public_key ≡ ed25519
    pub is_own_key : crypto.thumbprint session.public_key ≡ id
    pub not_denied : tables.denied id ≡ false
    pub signed :
        verify crypto parse now' request
          ("session:" <> id)
          session.public_key
          (some session.identity_id)
          s
        ≡ (ok tt, s')
    pub acts_as : context ≡ record {
      identity_id = session.identity_id;
      active_role_id = session.role_id;
      session_key_id = some id;
    }

  with_session-ok :
      (id : String) (o : Option (SessionKey crypto)) (context : Context)
      → with_session crypto parse tables now request now' id o s ≡ (ok context, s')
      → (k : SessionKey crypto) × (o ≡ some k)
        × (k.is_revoked ≡ false)
        × (k.logged_out_at ≡ none)
        × (now < k.expires_at)
        × (admit_public crypto parse tables now request now' "session:" id k.public_key
              k.identity_id
              (record {
                identity_id = k.identity_id;
                active_role_id = k.role_id;
                session_key_id = some id;
              })
              s
            ≡ (ok context, s'))
  unfolding with_session
  with_session-ok id none context h = ground arith
  with_session-ok id (some k) context h =
      (k, refl, ground arith, ground arith, ground arith, ground arith)

  admit_public-ok :
      (id : String) (key : crypto.Key) (identity_id : ℕ) (c context : Context)
      → admit_public crypto parse tables now request now' "session:" id key identity_id c s
        ≡ (ok context, s')
      → (crypto.key_type key ≡ ed25519)
        × (crypto.thumbprint key ≡ id)
        × (tables.denied id ≡ false)
        × (verify crypto parse now' request ("session:" <> id) key (some identity_id) s
            ≡ (ok tt, s'))
        × (context ≡ c)
  unfolding admit_public is_allowed admit
  admit_public-ok id key identity_id c context h = ground arith

  -- A request that is let in as a session acts for the identity, with the role, of a session key
  -- that it names: one that is stored, not revoked, not logged out, not expired, an Ed25519 key
  -- stored under its own thumbprint, not on the denylist, and that signed the request.
  pub verify_session-IsAuthenticated :
      (context : Context)
      → verify_session crypto parse tables now request now' s ≡ (ok context, s')
      → IsAuthenticated context
  unfolding verify_session with_key_id
  verify_session-IsAuthenticated context h =
      elim (Outcome-cases (get_keyid parse request "session")) [
        | inl (id, named) ↦
            let (k, known, unrevoked, logged_in, unexpired, admitted) =
              with_session-ok id (tables.sessions id) context (ground arith) in
            let (is_ed25519, is_own_key, not_denied, signed, acts_as) =
              admit_public-ok id k.public_key k.identity_id
                (record {
                  identity_id = k.identity_id;
                  active_role_id = k.role_id;
                  session_key_id = some id;
                })
                context admitted in
            record {
              id = id;
              session = k;
              named = named;
              known = known;
              unrevoked = unrevoked;
              logged_in = logged_in;
              unexpired = unexpired;
              is_ed25519 = is_ed25519;
              is_own_key = is_own_key;
              not_denied = not_denied;
              signed = signed;
              acts_as = acts_as;
            }
        | inr (inl (p, e)) ↦ ground arith
        | inr (inr e) ↦ ground arith
      ]
