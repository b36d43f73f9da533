-- ===== src/Certificate/HostSigning.antt =====
-- `sign_host_certificate` of src/provablyfine/api/endpoints/ssh.py: one certificate for each public
-- key, with consecutive serial numbers.
pub mod Laws
pub mod Run
use pf.Base.{ℕ, suc, length, ◌+◌, List, [], ◌∷◌, ◌++◌, map, String}
use pf.Base.Int.{sub_ℕ}
use pf.Base.Text.{decimal}
use Prim.Native.String.{◌++◌ as ◌<>◌}
use pf.Http.{Outcome, ok, or_crash, ◌>>=◌}
use pf.Certificate.{Library, create_host}
use pf.Certificate.Tables.{Identity, host_key, Store, certificate_create_host}
use pf.Certificate.UserSigning.{Env, read_current, first_key, reserve}

-- `f"{ctx.identity_id}:{caller.name}"`
unfoldable pub host_identifier : ℕ → String → String
host_identifier id name = decimal id <> (":" <> name)

module _ (lib : Library) where
  open lib use {PublicKey, PrivateKey, Certificate}

  -- A certificate with its serial number.
  pub record Signed : Type 0 where
    pub serial_number : ℕ
    pub certificate : Certificate

  -- The loop over the keys.
  pub sign_keys : Env lib → Identity → PrivateKey → ℕ → List PublicKey → List Signed
  unfolding host_identifier
  sign_keys env caller signer serial [] = []
  sign_keys env caller signer serial (k ∷ keys) =
      record {
        serial_number = serial;
        certificate =
            create_host lib k serial (host_identifier caller.id caller.name) (caller.name ∷ [])
              (sub_ℕ env.now 10) (env.now + env.config.host_certificate_lifetime) signer;
      }
      ∷ sign_keys env caller signer (suc serial) keys

  pub sign_host_certificate :
      Env lib
      → Identity
      → List PublicKey
      → Store PrivateKey
      → Outcome (List Signed × Store PrivateKey)
  unfolding sign_keys
  sign_host_certificate env caller keys s = do
    signer ← or_crash (
        first_key lib (
          read_current lib host_key env.config.host_key_staging_period env.first_now
            s.signing_keys))
    reserved ← reserve lib env.moves (length keys) signer s
    let signed = sign_keys env caller signer.key reserved.0 keys
    ok (
      signed,
      record reserved.1 {
        entries =
            reserved.1.entries
            ++ map
                (λ c.
                  certificate_create_host signer.id c.serial_number (caller.name ∷ [])
                    (sub_ℕ env.now 10) (env.now + env.config.host_certificate_lifetime))
                signed;
      },
    )
