-- ===== src/Certificate/UserSigning/Laws.antt =====
-- What a certificate lets its holder do, against the policy that decided it.
use pf.Base.{
  ℕ, ◌+◌, ◌≡◌, refl, ◌∙◌, sym, ap, Bool, true, false, Option, none, some, List, [], ◌∷◌, String,
  nat_eq, string_eq, all, contains, arith, Option-cases, inl, inr, forall_of_all, mem_of_contains,
}
use pf.Base.Dict.{lookup, contains_key}
use pf.Http.{ok}
use pf.Grant.Permission.{
  SshCapability, pty, user_rc, x11_forwarding, agent_forwarding, capability_eq,
}
use pf.Ssh.Ttl.{deadline, within, within-deadline}
use pf.Ssh.Capabilities.Laws.{lasts as capability_lasts}
use pf.Ssh.Commands.{permits}
use pf.Ssh.Commands.Laws.{lasts}
use pf.Ssh.Decision.{SshDecision}
use pf.Certificate.{Extensions}
use pf.Certificate.Tables.{Action}
use pf.Certificate.UserSigning.{
  Options, embedded_capabilities, bounds, shell_options, forwarding_options, command_options,
  options,
}

abbrev pub is_set : Option Bool → Bool
is_set none = false
is_set (some b) = b

-- A capability that the extensions give to the holder.
abbrev pub allows : Extensions → SshCapability → Bool
allows e SshCapability.shell = false
allows e pty = is_set e.permit_pty
allows e user_rc = is_set e.permit_user_rc
allows e agent_forwarding = is_set e.permit_agent_forwarding
allows e x11_forwarding = is_set e.permit_x11_forwarding
allows e SshCapability.port_forwarding = is_set e.permit_port_forwarding

-- The decision lets the action go on for `t` seconds.
abbrev pub action_lasts : ℕ → SshDecision → Action → Option String → Bool
action_lasts t d Action.shell text =
    capability_lasts t (lookup SshCapability.shell d.capability_ttl)
action_lasts t d Action.port_forwarding text =
    capability_lasts t (lookup SshCapability.port_forwarding d.capability_ttl)
action_lasts t d Action.command none = false
action_lasts t d Action.command (some c) = lasts t (permits d.commands c)

-- The command that the certificate forces.
abbrev pub forced : Action → Option String → Option String
forced Action.command text = text
forced _ text = none

module _ (now t : ℕ) (connection_id : String) (d : SshDecision) where
  all-bounds :
      (cs : List SshCapability)
      → all (λ c. contains_key c d.capability_ttl) cs ≡ true
      → all (within t) (bounds d.capability_ttl cs)
        ≡ all (λ c. capability_lasts t (lookup c d.capability_ttl)) cs
  unfolding bounds
  all-bounds [] h = refl
  all-bounds (c ∷ cs) h = ground (arith, all-bounds cs)

  lasts_of_all :
      (c : SshCapability) (cs : List SshCapability)
      → contains cs c ≡ true
      → all (λ c. capability_lasts t (lookup c d.capability_ttl)) cs ≡ true
      → capability_lasts t (lookup c d.capability_ttl) ≡ true
  lasts_of_all c cs m = λ h.
      forall_of_all (λ (c : SshCapability). capability_lasts t (lookup c d.capability_ttl)) h
        (mem_of_contains c cs m)

  -- What a certificate for a shell embeds.
  embedded-contains :
      (c : SshCapability)
      → contains_key c d.capability_ttl ≡ true
      → contains (embedded_capabilities d.capability_ttl) c ≡ true
  unfolding embedded_capabilities capability_eq
  embedded-contains SshCapability.shell k = refl
  embedded-contains pty k = ground arith
  embedded-contains user_rc k = ground arith
  embedded-contains agent_forwarding k = ground arith
  embedded-contains x11_forwarding k = ground arith
  embedded-contains SshCapability.port_forwarding k = ground arith

  embedded_keys :
      contains_key SshCapability.shell d.capability_ttl ≡ true
      → all (λ c. contains_key c d.capability_ttl) (embedded_capabilities d.capability_ttl) ≡ true
  unfolding embedded_capabilities
  embedded_keys k = ground arith

  shell_facts :
      (o : Options)
      → shell_options now connection_id d ≡ ok o
      → (contains_key SshCapability.shell d.capability_ttl ≡ true)
        × (o.extensions.session_deadline
            ≡ deadline now (bounds d.capability_ttl (embedded_capabilities d.capability_ttl)))
        × (o.critical_options.force_command ≡ none)
  unfolding shell_options
  shell_facts o h = ground arith

  shell_allows :
      (o : Options) (c : SshCapability)
      → shell_options now connection_id d ≡ ok o
      → allows o.extensions c ≡ true
      → contains_key c d.capability_ttl ≡ true
  unfolding shell_options
  shell_allows o SshCapability.shell h a = cc
  shell_allows o pty h a = ground arith
  shell_allows o user_rc h a = ground arith
  shell_allows o agent_forwarding h a = ground arith
  shell_allows o x11_forwarding h a = ground arith
  shell_allows o SshCapability.port_forwarding h a = ground arith

  -- A session that keeps to the deadline keeps to what the decision says of the action, and of each
  -- capability that the extensions give.
  pub record KeepsTo (action : Action) (text : Option String) (o : Options) : Type 0 where
    pub action_kept : action_lasts t d action text ≡ true
    pub capability_kept :
        (c : SshCapability)
        → allows o.extensions c ≡ true
        → capability_lasts t (lookup c d.capability_ttl) ≡ true

  shell-KeepsTo :
      (text : Option String) (o : Options)
      → shell_options now connection_id d ≡ ok o
      → within (now + t) o.extensions.session_deadline ≡ true
      → KeepsTo Action.shell text o
  shell-KeepsTo text o h w =
      let (is_key, e, unforced) = shell_facts o h in
      let cs = embedded_capabilities d.capability_ttl in
      let kept : all (λ c. capability_lasts t (lookup c d.capability_ttl)) cs ≡ true =
        sym (all-bounds cs (embedded_keys is_key))
        ∙ sym (within-deadline now t (bounds d.capability_ttl cs))
        ∙ ap (within (now + t)) (sym e)
        ∙ w in
      record {
        action_kept =
            lasts_of_all SshCapability.shell cs (embedded-contains SshCapability.shell is_key) kept;
        capability_kept =
            λ c a. lasts_of_all c cs (embedded-contains c (shell_allows o c h a)) kept;
      }

  forwarding-KeepsTo :
      (text : Option String) (o : Options)
      → forwarding_options now connection_id d ≡ ok o
      → within (now + t) o.extensions.session_deadline ≡ true
      → KeepsTo Action.port_forwarding text o
  unfolding forwarding_options
  forwarding-KeepsTo text o h w =
      elim (Option-cases (lookup SshCapability.port_forwarding d.capability_ttl)) [
        | inl e ↦ ground arith
        | inr (ttl, e) ↦
            let kept : capability_lasts t (lookup SshCapability.port_forwarding d.capability_ttl)
                ≡ true =
              ground (arith, within-deadline now t (ttl ∷ [])) in
            record { action_kept = kept; capability_kept = only kept }
      ]
    where
      only :
          capability_lasts t (lookup SshCapability.port_forwarding d.capability_ttl) ≡ true
          → (c : SshCapability) → allows o.extensions c ≡ true
          → capability_lasts t (lookup c d.capability_ttl) ≡ true
      only kept SshCapability.port_forwarding a = kept
      only kept SshCapability.shell a = cc
      only kept pty a = ground arith
      only kept user_rc a = ground arith
      only kept agent_forwarding a = ground arith
      only kept x11_forwarding a = ground arith

  command-KeepsTo :
      (text : Option String) (o : Options)
      → command_options now connection_id d text ≡ ok o
      → within (now + t) o.extensions.session_deadline ≡ true
      → KeepsTo Action.command text o
  unfolding command_options
  command-KeepsTo none o h w = ground arith
  command-KeepsTo (some c) o h w = elim (Option-cases (permits d.commands c)) [
    | inl e ↦ ground arith
    | inr (allowed, e) ↦ record {
      action_kept = ground (arith, within-deadline now t (allowed.ttl ∷ []));
      capability_kept = none_given;
    }
  ]
    where
      none_given :
          (c : SshCapability)
          → allows o.extensions c ≡ true
          → capability_lasts t (lookup c d.capability_ttl) ≡ true
      none_given SshCapability.port_forwarding a = ground arith
      none_given SshCapability.shell a = cc
      none_given pty a = ground arith
      none_given user_rc a = ground arith
      none_given agent_forwarding a = ground arith
      none_given x11_forwarding a = ground arith

  pub options-KeepsTo :
      (action : Action) (text : Option String) (o : Options)
      → options now connection_id d action text ≡ ok o
      → within (now + t) o.extensions.session_deadline ≡ true
      → KeepsTo action text o
  unfolding options
  options-KeepsTo Action.shell text o = shell-KeepsTo text o
  options-KeepsTo Action.port_forwarding text o = forwarding-KeepsTo text o
  options-KeepsTo Action.command text o = command-KeepsTo text o

module _ (now : ℕ) (connection_id : String) (d : SshDecision) where
  pub options-forced :
      (action : Action) (text : Option String) (o : Options)
      → options now connection_id d action text ≡ ok o
      → o.critical_options.force_command ≡ forced action text
  unfolding options shell_options forwarding_options command_options
  options-forced Action.shell text o h = ground arith
  options-forced Action.port_forwarding text o h = ground arith
  options-forced Action.command none o h = ground arith
  options-forced Action.command (some c) o h = ground arith
