-- ===== src/Certificate/Tables.antt =====
-- The rows and the state that src/provablyfine/api/endpoints/ssh.py reads and writes.
use pf.Base.{ℕ, Option, List, String}
use pf.Base.Int.{ℤ}
use pf.Grant.{Boundary, Role}
use pf.Certificate.{CriticalOptions, Extensions}

pub data Action : Type 0 where
  shell port_forwarding command : Action

-- `model.identity.Identity`
pub record Identity : Type 0 where
  pub id : ℕ
  pub name : String
  pub tag_id_list : List ℕ
  pub boundary_id_list : List ℕ
  pub unix_username : Option String

-- The identity that signed the request, with what `Grants.create` reads for it.
pub record Caller : Type 0 where
  pub identity : Identity
  pub boundaries : List Boundary
  pub roles : List Role

pub data SigningKeyType : Type 0 where
  user_key host_key : SigningKeyType

pub record SigningKey (PrivateKey : Type 0) : Type 0 where
  pub id : ℕ
  pub type : SigningKeyType
  pub key : PrivateKey
  pub serial_number : ℕ
  pub valid_after : ℕ
  pub valid_before : ℕ

pub record SshConnection : Type 0 where
  pub connection_id : String
  pub identity_id : ℕ
  pub hostname : String
  pub deadline : Option ℕ
  pub valid_before : ℕ

-- The entries of the audit log.
pub data Entry : Type 0 where
  signing_key_update_serial : ℕ → ℕ → Entry
  certificate_create_host : ℕ → ℕ → List String → ℤ → ℕ → Entry
  certificate_create_user :
      ℕ → ℕ → String → ℕ → List String → ℤ → ℕ → Extensions → CriticalOptions → Entry

pub record Store (PrivateKey : Type 0) : Type 0 where
  pub signing_keys : List (SigningKey PrivateKey)
  pub connections : List SshConnection
  pub entries : List Entry

pub record Config : Type 0 where
  pub host_key_staging_period : ℕ
  pub host_certificate_lifetime : ℕ
  pub user_key_staging_period : ℕ
  pub user_certificate_lifetime : ℕ

-- `model.bastion.Bastion`, without what the lookup does not read.
pub record Bastion : Type 0 where
  pub id : ℕ
  pub tag_id_list : Option (List ℕ)
  pub url : String

-- A row of `identity_session_key` of the caller that is not revoked.
pub record Login : Type 0 where
  pub login_ip : Option String
  pub logged_out_at : Option ℕ
  pub expires_at : ℕ
