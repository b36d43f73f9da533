-- ===== src/Certificate/UserSigning.antt =====
-- `sign_user_certificate` of src/provablyfine/api/endpoints/ssh.py. A problem leaves no state, since
-- the transaction of the request is rolled back.
pub mod Laws
pub mod Issued
pub mod Run
use mathlib.Core.Option
use pf.Base.{
  ℕ, ◌+◌, ◌-◌, Bool, true, false, not, ◌&&◌, ◌||◌, Option, none, some, List, [], ◌∷◌, ◌++◌, map,
  String, ◌==◌, nat_eq, string_eq, contains, any, filter, filter_map, if◌then◌else◌, leb, ltb,
  is_some,
}
use pf.Base.Dict.{lookup, contains_key}
use pf.Base.Int.{ℤ, sub_ℕ}
use pf.Base.Text.{decimal}
use Prim.Native.String.{◌++◌ as ◌<>◌}
use pf.Http.{Outcome, ok, problem, crash, fail, fail_if, or_fail, or_crash, assert, ◌>>=◌, ◌>>◌}
use pf.Grant.Permission.{
  SshCapability, pty, user_rc, x11_forwarding, agent_forwarding, capability_eq,
}
use pf.Ssh.Ttl.{deadline}
use pf.Ssh.Capabilities.{CapabilityTtl}
use pf.Ssh.Commands.{permits}
use pf.Ssh.Decision.{SshDecision, init, decide}
use pf.Certificate.{Library, CriticalOptions, Extensions, create_user}
use pf.Certificate.Tables.{
  Action, Identity, Caller, SigningKeyType, user_key, host_key, SigningKey, SshConnection, Store,
  signing_key_update_serial, certificate_create_user, Config, Bastion, Login,
}
use pf.Certificate.Serial.{Counter, allocate_serial_numbers}

-- `CONNECTION_RETENTION_S` of model/live.py.
abbrev pub connection_retention_s : ℕ
connection_retention_s = 86400

-- What the three cases decide: the deadline is that of the extensions.
pub record Options : Type 0 where
  pub critical_options : CriticalOptions
  pub extensions : Extensions

abbrev no_force : Option String → CriticalOptions
no_force command = record { force_command = command; source_address = none; verify_required = none }

-- The capabilities that a certificate for a shell embeds.
embedded_capabilities : CapabilityTtl → List SshCapability
embedded_capabilities ttl =
    SshCapability.shell
    ∷ filter (λ c. contains_key c ttl)
        (pty ∷ user_rc ∷ SshCapability.port_forwarding ∷ x11_forwarding ∷ agent_forwarding ∷ [])

-- `[decision.capability_ttl[c] for c in …]`: each of them is a key.
bounds : CapabilityTtl → List SshCapability → List (Option ℕ)
bounds ttl = filter_map (λ c. lookup c ttl)

shell_options : ℕ → String → SshDecision → Outcome Options
unfolding embedded_capabilities bounds
shell_options now connection_id d = do
  fail_if (not (contains_key SshCapability.shell d.capability_ttl)) 403 "Forbidden"
  ok (record {
    critical_options = no_force none;
    extensions = record {
      no_touch_required = none;
      permit_agent_forwarding = some (contains_key agent_forwarding d.capability_ttl);
      permit_port_forwarding = some (contains_key SshCapability.port_forwarding d.capability_ttl);
      permit_pty = some (contains_key pty d.capability_ttl);
      permit_user_rc = some (contains_key user_rc d.capability_ttl);
      permit_x11_forwarding = some (contains_key x11_forwarding d.capability_ttl);
      session_deadline =
          deadline now (bounds d.capability_ttl (embedded_capabilities d.capability_ttl));
      connection_id = some connection_id;
    };
  })

-- The extensions of the two other cases.
restricted : Bool → Option ℕ → String → Extensions
restricted forwarding session_deadline connection_id = record {
  no_touch_required = none;
  permit_agent_forwarding = some false;
  permit_port_forwarding = some forwarding;
  permit_pty = some false;
  permit_user_rc = some false;
  permit_x11_forwarding = some false;
  session_deadline = session_deadline;
  connection_id = some connection_id;
}

forwarding_options : ℕ → String → SshDecision → Outcome Options
unfolding restricted
forwarding_options now connection_id d = do
  ttl ← or_fail (lookup SshCapability.port_forwarding d.capability_ttl) 403 "Forbidden"
  ok (record {
    critical_options = no_force none;
    extensions = restricted true (deadline now (ttl ∷ [])) connection_id;
  })

command_options : ℕ → String → SshDecision → Option String → Outcome Options
unfolding restricted
command_options now connection_id d command = do
  c ← or_fail command 400 "command required for action=command"
  allowed ← or_fail (permits d.commands c) 403 "Forbidden"
  ok (record {
    critical_options = no_force (some c);
    extensions = restricted false (deadline now (allowed.ttl ∷ [])) connection_id;
  })

-- The `match` of the function.
pub options : ℕ → String → SshDecision → Action → Option String → Outcome Options
unfolding shell_options forwarding_options command_options
options now connection_id d Action.shell command = shell_options now connection_id d
options now connection_id d Action.port_forwarding command = forwarding_options now connection_id d
options now connection_id d Action.command text = command_options now connection_id d text

-- `model.identity.read_one(name=…)`
pub read_name : String → List Identity → Option Identity
read_name name [] = none
read_name name (i ∷ identities) = if i.name == name then some i else read_name name identities

same_type : SigningKeyType → SigningKeyType → Bool
same_type user_key user_key = true
same_type host_key host_key = true
same_type _ _ = false

-- `f"{username}@{host.id}"`
unfoldable pub principal : String → ℕ → String
principal username host_id = username <> ("@" <> decimal host_id)

-- `model.bastion.read_matching`: the bastions without a tag list, or with a tag of the caller.
unfoldable pub matches_caller : List ℕ → Bastion → Bool
matches_caller tag_id_list b = elim b.tag_id_list [
  | none ↦ true
  | some ids ↦ any (λ t. contains tag_id_list t) ids
]

-- `[s.login_ip for s in sessions if …]`
login_addresses : ℕ → List Login → List String
login_addresses now = filter_map (λ s.
    if not (is_some s.logged_out_at) && ltb now s.expires_at
    then elim s.login_ip [ none ↦ none | some ip ↦ if ip == "" then none else some ip ]
    else none)

module _ (lib : Library) where
  open lib use {PublicKey, PrivateKey, Certificate}

  -- `_read_current`
  pub read_current :
      SigningKeyType → ℕ → ℕ → List (SigningKey PrivateKey) → List (SigningKey PrivateKey)
  unfolding same_type
  read_current type staging_period now = filter (λ k.
      same_type k.type type && (leb (k.valid_after + staging_period) now && ltb now k.valid_before))

  -- `signers[0]`
  pub first_key : List (SigningKey PrivateKey) → Option (SigningKey PrivateKey)
  first_key [] = none
  first_key (k ∷ keys) = some k

  set_serial : ℕ → ℕ → SigningKey PrivateKey → SigningKey PrivateKey
  set_serial id serial_number k =
      if k.id == id then record k { serial_number = serial_number } else k

  -- The call of `allocate_serial_numbers`, with its update of the table and its entry.
  pub reserve :
      List ℕ → ℕ → SigningKey PrivateKey → Store PrivateKey → Outcome (ℕ × Store PrivateKey)
  unfolding set_serial
  reserve moves count signer s =
      let (o, c) =
        allocate_serial_numbers moves count
          (record { serial_number = signer.serial_number; updates = [] }) in
      elim o [
        | ok first ↦ ok (
          first,
          record s {
            signing_keys = map (set_serial signer.id c.serial_number) s.signing_keys;
            entries = s.entries ++ map (signing_key_update_serial signer.id) c.updates;
          },
        )
        | problem p ↦ problem p
        | crash ↦ crash
      ]

  pub record Request : Type 0 where
    pub hostname : String
    pub username : String
    pub public_key : PublicKey
    pub action : Action
    pub command : Option String

  -- What the function reads besides the request: the times of its two calls of `time.time`, the new
  -- connection id, the tables, and the moves of the counter by other requests.
  pub record Env : Type 0 where
    pub identities : List Identity
    pub bastions : List Bastion
    pub logins : List Login
    pub config : Config
    pub first_now : ℕ
    pub now : ℕ
    pub connection_id : String
    pub moves : List ℕ

  pub record Response : Type 0 where
    pub certificate : Certificate
    pub connection_id : String
    pub bastion_list : List Bastion
    pub ip_address_list : List String

  -- What follows the choice of the options: the certificate, and what is recorded of it.
  issue :
      Env
      → Caller
      → Request
      → Identity
      → SigningKey PrivateKey
      → ℕ
      → Store PrivateKey
      → Options
      → Response × Store PrivateKey
  unfolding login_addresses
  issue env caller request host signer serial s o =
      let principals = principal request.username host.id ∷ [] in
      let valid_before = env.now + env.config.user_certificate_lifetime in
      (
        record {
          certificate =
              create_user lib request.public_key serial
                (decimal caller.identity.id <> (":" <> caller.identity.name)) principals
                (sub_ℕ env.now 10) valid_before o.critical_options o.extensions signer.key;
          connection_id = env.connection_id;
          bastion_list = filter (matches_caller caller.identity.tag_id_list) env.bastions;
          ip_address_list = login_addresses env.now env.logins;
        },
        record s {
          connections =
              filter (λ c. leb env.now (c.valid_before + connection_retention_s)) s.connections
              ++ (record {
                connection_id = env.connection_id;
                identity_id = caller.identity.id;
                hostname = request.hostname;
                deadline = o.extensions.session_deadline;
                valid_before = valid_before;
              }
                  ∷ []);
          entries =
              s.entries
              ++ (certificate_create_user signer.id host.id request.username serial principals
                    (sub_ℕ env.now 10) valid_before o.extensions o.critical_options
                  ∷ []);
        },
      )

  pub sign_user_certificate :
      Env → Caller → Request → Store PrivateKey → Outcome (Response × Store PrivateKey)
  unfolding issue
  sign_user_certificate env caller request s = do
    host ← or_fail (read_name request.hostname env.identities) 404 "Unknown host"
    assert (any (λ b. true) caller.boundaries)
    let d =
        decide (init host.id host.tag_id_list host.boundary_id_list caller.boundaries caller.roles)
          request.username caller.identity.unix_username
    signer ← or_crash (
        first_key
          (read_current user_key env.config.user_key_staging_period env.first_now s.signing_keys))
    reserved ← reserve env.moves 1 signer s
    o ← options env.now env.connection_id d request.action request.command
    ok (issue env caller request host signer reserved.0 reserved.1 o)
