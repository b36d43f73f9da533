-- ===== src/Certificate/Tests.antt =====
-- Runs of the signing of certificates, and the theorems at concrete inputs.
use pf.Base.{
  ℕ, ◌≡◌, refl, true, false, not, none, some, List, [], ◌∷◌, ◌++◌, map, String, ◌==◌, string_eq,
  nat_eq, if◌then◌else◌,
}
use pf.Base.Int.{pos}
use pf.Base.Text.{decimal}
use Prim.Native.String.{◌++◌ as ◌<>◌}
use pf.Http.{ok, fail}
use pf.Grant.{Grant, Boundary, Role as GrantRole}
use pf.Grant.Permission.{shell, pty}
use pf.Cli.{value, ui_error}
use pf.Certificate.{Library, Builder, user, host, Extensions}
use pf.Certificate.Tables.{
  Action, Identity, Caller, user_key, host_key, SigningKey, Store, signing_key_update_serial,
  certificate_create_host, certificate_create_user,
}
use pf.Certificate.Serial.Laws.{Call, ranges, IsAbove, ranges-IsAbove}
use pf.Certificate.HostSigning.{host_identifier, Signed, sign_host_certificate}
use pf.Certificate.HostSigning.Run as HostSigningRun
use pf.Certificate.HostSigning.Laws.{range, zip_with, numbered, sign_host_certificate-numbered}
use pf.Certificate.Principals.{authorized_principals}
use pf.Certificate.Principals.Laws.{authorized_principals-principal}
use pf.Certificate.UserSigning.{
  reserve, Request, Env, Response, principal, read_current, first_key, sign_user_certificate,
}
use pf.Certificate.UserSigning.Run.{run}
use pf.Certificate.UserSigning.Issued.{
  IsIssued, is_ok, action_authorized, sign_user_certificate-IsIssued, sign_user_certificate-is_ok,
}

-- Certificates that show what they were built from, and the key that signed them.
abbrev library : Library
library = record {
  PublicKey = String;
  PrivateKey = String;
  Certificate = Builder String × String;
  sign = λ b k. (b, k);
}

-- A shell with a pty for an hour as root on the hosts with tag 1.
abbrev operators : GrantRole
operators = record {
  id = 1;
  name = "operators";
  description = "";
  grant_list =
      Grant.ssh (record {
        filter = record { id = none; tag_id_list = some (1 ∷ []); boundary_id_list = none };
        permission = record {
          username_list = some ("root" ∷ []);
          capability_list = some (shell ∷ pty ∷ []);
          command_list = some [];
          max_session_ttl_s = some 3600;
        };
      })
      ∷ [];
  member_id_list = [];
}

abbrev open_boundary : Boundary
open_boundary = record {
  id = 1;
  name = "open";
  description = "";
  ceiling_list = none;
  denied_list = [];
}

abbrev web_host : Identity
web_host = record {
  id = 7;
  name = "web";
  tag_id_list = 1 ∷ [];
  boundary_id_list = [];
  unix_username = none;
}

abbrev ann : Caller
ann = record {
  identity = record {
    id = 3;
    name = "ann";
    tag_id_list = [];
    boundary_id_list = 1 ∷ [];
    unix_username = some "ann";
  };
  boundaries = open_boundary ∷ [];
  roles = operators ∷ [];
}

abbrev env : Env library
env = record {
  identities = web_host ∷ [];
  bastions = [];
  logins = record { login_ip = some "10.0.0.1"; logged_out_at = none; expires_at = 2000 } ∷ [];
  config = record {
    host_key_staging_period = 60;
    host_certificate_lifetime = 86400;
    user_key_staging_period = 60;
    user_certificate_lifetime = 120;
  };
  first_now = 1000;
  now = 1001;
  connection_id = "c1";
  moves = 2 ∷ [];
}

abbrev request : Action → Request library
request action = record {
  hostname = "web";
  username = "root";
  public_key = "ann's key";
  action = action;
  command = none;
}

-- One key is staged, one is current, and one is for hosts.
abbrev key : ℕ → ℕ → SigningKey String
key id valid_after = record {
  id = id;
  type = user_key;
  key = "ca";
  serial_number = 40;
  valid_after = valid_after;
  valid_before = 5000;
}

abbrev store : Store String
store = record {
  signing_keys = record (key 1 0) { type = host_key } ∷ key 2 990 ∷ key 3 900 ∷ [];
  connections = [];
  entries = [];
}

first_key_test :
    first_key library (read_current library user_key 60 1000 store.signing_keys) ≡ some (key 3 900)
unfolding run
first_key_test = refl

abbrev response : Response library
response = record {
  certificate = (
    record {
      public_key = "ann's key";
      role = user;
      valid_before = 1121;
      valid_after = pos 991;
      key_id = "3:ann";
      valid_principals = "root@7" ∷ [];
      serial = 42;
      critical_options = [];
      extensions =
          ("permit-pty", "")
          ∷ ("pf-session-deadline@provablyfine.net", "4601")
          ∷ ("pf-connection-id@provablyfine.net", "c1")
          ∷ [];
    },
    "ca",
  );
  connection_id = "c1";
  bastion_list = [];
  ip_address_list = "10.0.0.1" ∷ [];
}

abbrev extensions : Extensions
extensions = record {
  no_touch_required = none;
  permit_agent_forwarding = some false;
  permit_port_forwarding = some false;
  permit_pty = some true;
  permit_user_rc = some false;
  permit_x11_forwarding = some false;
  session_deadline = some 4601;
  connection_id = some "c1";
}

abbrev reserved_store : Store String
reserved_store = record {
  signing_keys =
      record (key 1 0) { type = host_key }
      ∷ key 2 990
      ∷ record (key 3 900) { serial_number = 43 }
      ∷ [];
  connections = [];
  entries = signing_key_update_serial 3 43 ∷ [];
}

abbrev store_after : Store String
store_after = record reserved_store {
  connections =
      record {
        connection_id = "c1";
        identity_id = 3;
        hostname = "web";
        deadline = some 4601;
        valid_before = 1121;
      }
      ∷ [];
  entries =
      signing_key_update_serial 3 43
      ∷ certificate_create_user 3 7 "root" 42 ("root@7" ∷ []) (pos 991) 1121 extensions
          (record { force_command = none; source_address = none; verify_required = none })
      ∷ [];
}

sign_user_certificate-IsIssued_example :
    IsIssued library env ann (request Action.shell) store response
unfolding run
sign_user_certificate-IsIssued_example =
    sign_user_certificate-IsIssued library env ann (request Action.shell) store response store_after
      refl

sign_user_certificate-is_ok_example :
    is_ok (sign_user_certificate library env ann (request Action.port_forwarding) store)
    ≡ action_authorized ann web_host "root" 0 Action.port_forwarding none
unfolding run
sign_user_certificate-is_ok_example =
    sign_user_certificate-is_ok library env ann (request Action.port_forwarding) store web_host
      (key 3 900) (42, reserved_store) refl refl refl refl

forwarding_test :
    sign_user_certificate library env ann (request Action.port_forwarding) store
    ≡ fail 403 "Forbidden"
unfolding run
forwarding_test = refl

abbrev calls : List Call
calls =
    record { before = 0; count = 2; moves = 3 ∷ [] }
    ∷ record { before = 4; count = 1; moves = 1 ∷ 1 ∷ 1 ∷ 1 ∷ 1 ∷ [] }
    ∷ record { before = 0; count = 5; moves = [] }
    ∷ []

ranges-IsAbove_example : IsAbove 10 (ranges calls (record { serial_number = 10; updates = [] }))
ranges-IsAbove_example = ranges-IsAbove calls (record { serial_number = 10; updates = [] })

principals_test :
    authorized_principals "7:web" "root" ("ann@7" ∷ "root@7" ∷ []) ≡ value ("root@7" ∷ [])
unfolding authorized_principals run
principals_test = refl

abbrev username : String
username = "root"

abbrev other_id : ℕ
other_id = 8

authorized_principals-principal_example :
    authorized_principals (host_identifier 7 "web") "root" (principal "root" 8 ∷ []) ≡ (
      if not (username == username)
      then value []
      else if not (other_id == 7)
      then ui_error ("Invalid user host id=" <> (decimal 8 <> (" expected=" <> decimal 7)))
      else value (principal "root" 8 ∷ []))
unfolding nat_eq
authorized_principals-principal_example =
    authorized_principals-principal "root" "root" "web" 8 7 refl

abbrev host_certificate : String → ℕ → Signed library
host_certificate public_key serial = record {
  serial_number = serial;
  certificate = (
    record {
      public_key = public_key;
      role = host;
      valid_before = 87401;
      valid_after = pos 991;
      key_id = "7:web";
      valid_principals = "web" ∷ [];
      serial = serial;
      critical_options = [];
      extensions = [];
    },
    "host ca",
  );
}

abbrev host_store : Store String
host_store = record {
  signing_keys = key 2 100 ∷ record (key 1 100) { type = host_key; key = "host ca" } ∷ [];
  connections = [];
  entries = [];
}

abbrev host_keys : List String
host_keys = "rsa" ∷ "ed25519" ∷ []

abbrev host_store_after : Store String
host_store_after = record {
  signing_keys =
      key 2 100 ∷ record (key 1 100) { type = host_key; key = "host ca"; serial_number = 44 } ∷ [];
  connections = [];
  entries =
      signing_key_update_serial 1 44
      ∷ certificate_create_host 1 42 ("web" ∷ []) (pos 991) 87401
      ∷ certificate_create_host 1 43 ("web" ∷ []) (pos 991) 87401
      ∷ [];
}

host_run :
    sign_host_certificate library env web_host host_keys host_store
    ≡ ok (host_certificate "rsa" 42 ∷ host_certificate "ed25519" 43 ∷ [], host_store_after)
unfolding HostSigningRun.run
host_run = refl

sign_host_certificate-numbered_example :
    (signer : SigningKey String) × (first : ℕ) × (t : Store String) × (first_key library
        (read_current library host_key 60 1000 host_store.signing_keys)
      ≡ some signer)
    × (reserve library (2 ∷ []) 2 signer host_store ≡ ok (first, t))
    × (42 ∷ 43 ∷ [] ≡ range first 2)
    × (map (λ c. c.certificate) (host_certificate "rsa" 42 ∷ host_certificate "ed25519" 43 ∷ [])
        ≡ zip_with (numbered library env web_host signer.key) host_keys (range first 2))
    × (host_store_after.entries
        ≡ t.entries
          ++ map
              (λ n. certificate_create_host signer.id n ("web" ∷ []) (pos 991) 87401)
              (range first 2))
unfolding HostSigningRun.run
sign_host_certificate-numbered_example =
    sign_host_certificate-numbered library env web_host host_keys host_store host_store_after
      (host_certificate "rsa" 42 ∷ host_certificate "ed25519" 43 ∷ []) refl
