-- ===== src/Certificate.antt =====
-- The certificates of src/provablyfine/ssh/cert.py. The builder and the signatures are those of the
-- package cryptography, and are parameters.
pub mod Tables
pub mod Serial
pub mod UserSigning
pub mod HostSigning
pub mod Principals
pub mod Tests
use pf.Base.{ℕ, Bool, true, false, Option, none, some, List, [], ◌∷◌, ◌++◌, String, if◌then◌else◌}
use pf.Base.Dict.{Dict}
use pf.Base.Int.{ℤ}
use pf.Base.Text.{decimal}
use Prim.Native.String.{◌++◌ as ◌<>◌}

pub data Role : Type 0 where
  user host : Role

pub record CriticalOptions : Type 0 where
  pub force_command : Option String
  pub source_address : Option (List String)
  pub verify_required : Option Bool

pub record Extensions : Type 0 where
  pub no_touch_required : Option Bool
  pub permit_agent_forwarding : Option Bool
  pub permit_port_forwarding : Option Bool
  pub permit_pty : Option Bool
  pub permit_user_rc : Option Bool
  pub permit_x11_forwarding : Option Bool
  pub session_deadline : Option ℕ
  pub connection_id : Option String

-- What is told to `SSHCertificateBuilder`, its options in the order of the calls.
pub record Builder (PublicKey : Type 0) : Type 0 where
  pub public_key : PublicKey
  pub role : Role
  pub valid_before : ℕ
  pub valid_after : ℤ
  pub key_id : String
  pub valid_principals : List String
  pub serial : ℕ
  pub critical_options : Dict String String
  pub extensions : Dict String String

-- The package: its keys, its certificates, and `sign`.
pub record Library : Type 1 where
  pub PublicKey : Type 0
  pub PrivateKey : Type 0
  pub Certificate : Type 0
  pub sign : Builder PublicKey → PrivateKey → Certificate

-- `if flag: builder = builder.add_…(name, b"")`
abbrev pub flag : String → Option Bool → Dict String String
flag name (some true) = (name, "") ∷ []
flag name _ = []

-- `if value is not None: builder = builder.add_…(name, …)`
abbrev pub valued : {A : Type 0} → String → (A → String) → Option A → Dict String String
valued name show none = []
valued name show (some a) = (name, show a) ∷ []

-- `",".join(addresses)`
join_commas : List String → String
join_commas [] = ""
join_commas (a ∷ []) = a
join_commas (a ∷ b ∷ as') = a <> ("," <> join_commas (b ∷ as'))

pub write_critical_options : CriticalOptions → Dict String String
unfolding join_commas
write_critical_options o =
    valued "force-command" (λ c. c) o.force_command
    ++ (valued "source-address" join_commas o.source_address
        ++ flag "verify-required" o.verify_required)

pub write_extensions : Extensions → Dict String String
write_extensions e =
    flag "no-touch-required" e.no_touch_required
    ++ (flag "permit-agent-forwarding" e.permit_agent_forwarding
        ++ (flag "permit-port-forwarding" e.permit_port_forwarding
            ++ (flag "permit-pty" e.permit_pty
                ++ (flag "permit-user-rc" e.permit_user_rc
                    ++ (flag "permit-X11-forwarding" e.permit_x11_forwarding
                        ++ (valued "pf-session-deadline@provablyfine.net" decimal e.session_deadline
                            ++ valued "pf-connection-id@provablyfine.net" (λ c. c)
                                e.connection_id))))))

module _ (lib : Library) where
  open lib use {PublicKey, PrivateKey, Certificate, sign}

  unfoldable pub create_host :
      PublicKey → ℕ → String → List String → ℤ → ℕ → PrivateKey → Certificate
  create_host public_key serial_number identifier principals valid_after valid_before signer =
      sign
        (record {
          public_key = public_key;
          role = host;
          valid_before = valid_before;
          valid_after = valid_after;
          key_id = identifier;
          valid_principals = principals;
          serial = serial_number;
          critical_options = [];
          extensions = [];
        })
        signer

  unfoldable pub create_user :
      PublicKey
      → ℕ
      → String
      → List String
      → ℤ
      → ℕ
      → CriticalOptions
      → Extensions
      → PrivateKey
      → Certificate
  create_user public_key serial_number identifier principals valid_after valid_before
        critical_options extensions signer =
      sign
        (record {
          public_key = public_key;
          role = user;
          valid_before = valid_before;
          valid_after = valid_after;
          key_id = identifier;
          valid_principals = principals;
          serial = serial_number;
          critical_options = write_critical_options critical_options;
          extensions = write_extensions extensions;
        })
        signer
