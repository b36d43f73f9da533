-- ===== src/Certificate/UserSigning/Issued.antt =====
-- A certificate that is issued stays within the policy, and who the policy lets in gets one.
use pf.Base.{
  ℕ, ◌+◌, ◌≡◌, refl, ◌∙◌, sym, ap, Bool, true, false, Option, none, some, [], ◌∷◌, String, any,
  arith,
}
use pf.Base.Dict.{lookup}
use pf.Base.Int.{sub_ℕ}
use pf.Base.Text.{decimal}
use Prim.Native.String.{◌++◌ as ◌<>◌}
use pf.Http.{
  Outcome, ok, problem, crash, assert, ok-injective, >>=-inverts, or_fail-inverts, or_crash-inverts,
  ◌>>=◌,
}
use pf.Grant.Permission.{SshCapability, SshPermission, capability_eq}
use pf.Ssh.Ttl.{within}
use pf.Ssh.Capabilities.Laws.{lasts as capability_lasts, mentions_capability}
use pf.Ssh.Commands.Laws.{mentions_command}
use pf.Ssh.Decision.{SshDecision, init, decide, covers_username}
use pf.Ssh.Decision.Laws.{authorizes}
use pf.Ssh.Decision.Policy.{capability-decide, command-decide}
use pf.Certificate.{Library, create_user}
use pf.Certificate.Tables.{Action, Identity, Caller, user_key, SigningKey, Store}
use pf.Certificate.UserSigning.{
  Options, shell_options, forwarding_options, command_options, options, read_name, principal,
  read_current, first_key, reserve, Request, Env, Response, issue, sign_user_certificate,
}
use pf.Certificate.UserSigning.Laws.{
  allows, action_lasts, forced, KeepsTo, options-KeepsTo, options-forced,
}

-- The policy of the caller's roles and boundaries about a session of `t` seconds on a host.
module _ (caller : Caller) (host : Identity) (username : String) (t : ℕ) where
  policy : (SshPermission → Bool) → Bool
  policy mentions =
      authorizes host.id host.tag_id_list host.boundary_id_list
        (λ p. covers_username p username caller.identity.unix_username) mentions t caller.boundaries
        caller.roles

  -- The capability is authorized.
  pub capability_authorized : SshCapability → Bool
  unfolding policy
  capability_authorized c = policy (mentions_capability c)

  -- The action that is asked for is authorized: the capability, or the command.
  pub action_authorized : Action → Option String → Bool
  unfolding policy
  action_authorized Action.shell text = policy (mentions_capability SshCapability.shell)
  action_authorized Action.port_forwarding text =
      policy (mentions_capability SshCapability.port_forwarding)
  action_authorized Action.command none = false
  action_authorized Action.command (some c) = policy (mentions_command c)

decision : Caller → Identity → String → SshDecision
decision caller host username =
    decide (init host.id host.tag_id_list host.boundary_id_list caller.boundaries caller.roles)
      username caller.identity.unix_username

module _ (caller : Caller) (host : Identity) (username : String) (t : ℕ) where
  capability_lasts-decision :
      (c : SshCapability)
      → capability_lasts t (lookup c (decision caller host username).capability_ttl)
        ≡ capability_authorized caller host username t c
  unfolding decision capability_authorized
  capability_lasts-decision c =
      capability-decide host.id host.tag_id_list host.boundary_id_list caller.boundaries
        caller.roles username caller.identity.unix_username c t

  action_lasts-decision :
      (action : Action) (text : Option String)
      → action_lasts t (decision caller host username) action text
        ≡ action_authorized caller host username t action text
  unfolding action_authorized decision
  action_lasts-decision Action.shell text =
      capability-decide host.id host.tag_id_list host.boundary_id_list caller.boundaries
        caller.roles username caller.identity.unix_username SshCapability.shell t
  action_lasts-decision Action.port_forwarding text =
      capability-decide host.id host.tag_id_list host.boundary_id_list caller.boundaries
        caller.roles username caller.identity.unix_username SshCapability.port_forwarding t
  action_lasts-decision Action.command none = refl
  action_lasts-decision Action.command (some c) =
      command-decide host.id host.tag_id_list host.boundary_id_list caller.boundaries caller.roles
        username caller.identity.unix_username c t

abbrev pub is_ok : {A : Type 0} → Outcome A → Bool
is_ok (ok a) = true
is_ok _ = false

is_ok->>= : {A B : Type 0} (o : Outcome A) (f : A → B) → is_ok (o >>= λ a. ok (f a)) ≡ is_ok o
is_ok->>= (ok a) f = refl
is_ok->>= (problem p) f = refl
is_ok->>= crash f = refl

is_ok-options :
    (now : ℕ) (connection_id : String) (d : SshDecision) (action : Action) (text : Option String)
    → is_ok (options now connection_id d action text) ≡ action_lasts 0 d action text
unfolding options shell_options forwarding_options command_options
is_ok-options now connection_id d Action.shell text = ground arith
is_ok-options now connection_id d Action.port_forwarding text = ground arith
is_ok-options now connection_id d Action.command none = refl
is_ok-options now connection_id d Action.command (some c) = ground arith

module _ (lib : Library) (env : Env lib) (caller : Caller) (request : Request lib)
    (s : Store lib.PrivateKey) where
  -- What an issued certificate is, and that its holder can do with it only what the policy says.
  pub record IsIssued (r : Response lib) : Type 0 where
    pub host : Identity
    pub named : read_name request.hostname env.identities ≡ some host
    pub signer : SigningKey lib.PrivateKey
    pub current :
        first_key lib (
          read_current lib user_key env.config.user_key_staging_period env.first_now s.signing_keys)
        ≡ some signer
    pub serial : ℕ
    pub store : Store lib.PrivateKey
    pub reserved : reserve lib env.moves 1 signer s ≡ ok (serial, store)
    pub options : Options
    pub issued :
        r.certificate
        ≡ create_user lib request.public_key serial
            (decimal caller.identity.id <> (":" <> caller.identity.name))
            (principal request.username host.id ∷ [])
            (sub_ℕ env.now 10)
            (env.now + env.config.user_certificate_lifetime)
            options.critical_options
            options.extensions
            signer.key
    pub command_forced :
        options.critical_options.force_command ≡ forced request.action request.command
    pub action_kept :
        (t : ℕ)
        → within (env.now + t) options.extensions.session_deadline ≡ true
        → action_authorized caller host request.username t request.action request.command ≡ true
    pub capability_kept :
        (t : ℕ) (c : SshCapability)
        → within (env.now + t) options.extensions.session_deadline ≡ true
        → allows options.extensions c ≡ true
        → capability_authorized caller host request.username t c ≡ true

  -- What the last step of a successful call had before it.
  steps :
      (r : Response lib) (s' : Store lib.PrivateKey)
      → sign_user_certificate lib env caller request s ≡ ok (r, s')
      → (host : Identity) × (signer : SigningKey lib.PrivateKey) × (reserved : ℕ
          × Store lib.PrivateKey)
        × (o : Options) × (read_name request.hostname env.identities ≡ some host)
        × (first_key lib (
              read_current lib user_key env.config.user_key_staging_period env.first_now
                s.signing_keys)
            ≡ some signer)
        × (reserve lib env.moves 1 signer s ≡ ok reserved)
        × (options env.now env.connection_id
              (decision caller host request.username)
              request.action
              request.command
            ≡ ok o)
        × ((r, s') ≡ issue lib env caller request host signer reserved.0 reserved.1 o)
  unfolding sign_user_certificate decision
  steps r s' h =
      let (host, named, h₁) = >>=-inverts _ _ h in
      let (_, _, h₂) = >>=-inverts (assert (any (λ b. true) caller.boundaries)) _ h₁ in
      let (signer, current, h₃) = >>=-inverts _ _ h₂ in
      let (reserved, has_reserved, h₄) = >>=-inverts (reserve lib env.moves 1 signer s) _ h₃ in
      let (o, chosen, h₅) = >>=-inverts _ _ h₄ in
      (
        host,
        signer,
        reserved,
        o,
        or_fail-inverts _ _ _ named,
        or_crash-inverts _ current,
        has_reserved,
        chosen,
        sym (ok-injective h₅),
      )

  -- A certificate that is issued is for the host that is named, is signed by a current key, forces
  -- the command that is asked for, and, for every length of session that keeps to its deadline, the
  -- policy of the caller's roles and boundaries authorizes the action that is asked for and every
  -- capability in its extensions.
  pub sign_user_certificate-IsIssued :
      (r : Response lib) (s' : Store lib.PrivateKey)
      → sign_user_certificate lib env caller request s ≡ ok (r, s')
      → IsIssued r
  unfolding issue
  sign_user_certificate-IsIssued r s' h =
      let (host, signer, reserved, o, named, current, has_reserved, chosen, e) = steps r s' h in
      let d = decision caller host request.username in
      let kept : (t : ℕ)
          → within (env.now + t) o.extensions.session_deadline ≡ true
          → KeepsTo env.now t env.connection_id d request.action request.command o =
        λ t.
          options-KeepsTo env.now t env.connection_id d request.action request.command o chosen in
      record {
        host = host;
        named = named;
        signer = signer;
        current = current;
        serial = reserved.0;
        store = reserved.1;
        reserved = has_reserved;
        options = o;
        issued = ap (λ (x : Response lib × Store lib.PrivateKey). x.0.certificate) e;
        command_forced =
            options-forced env.now env.connection_id d request.action request.command o chosen;
        action_kept = λ t w.
            sym
              (action_lasts-decision caller host request.username t request.action request.command)
            ∙ (kept t w).action_kept;
        capability_kept = λ t c w a.
            sym (capability_lasts-decision caller host request.username t c)
            ∙ (kept t w).capability_kept c a;
      }

  -- Where the host is known, the caller has a boundary, a key is current and a serial number can be
  -- reserved, a certificate is issued exactly when the policy authorizes the action at all.
  pub sign_user_certificate-is_ok :
      (host : Identity) (signer : SigningKey lib.PrivateKey) (reserved : ℕ × Store lib.PrivateKey)
      → read_name request.hostname env.identities ≡ some host
      → any (λ b. true) caller.boundaries ≡ true
      → first_key lib (
          read_current lib user_key env.config.user_key_staging_period env.first_now s.signing_keys)
        ≡ some signer
      → reserve lib env.moves 1 signer s ≡ ok reserved
      → is_ok (sign_user_certificate lib env caller request s)
        ≡ action_authorized caller host request.username 0 request.action request.command
  unfolding sign_user_certificate decision
  sign_user_certificate-is_ok host signer reserved named bounded current has_reserved =
      rw (named, bounded, current, has_reserved)
        (is_ok->>= _ _
          ∙ is_ok-options env.now env.connection_id (decision caller host request.username)
              request.action request.command
          ∙ action_lasts-decision caller host request.username 0 request.action request.command)
