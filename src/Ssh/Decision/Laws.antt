-- ===== src/Ssh/Decision/Laws.antt =====
-- A decision against the policy: what the grants allow, under every ceiling, and tolerated by
-- every denied entry.
use mathlib.Core.List.{foldl}
use pf.Base.{
  ℕ, ◌≡◌, refl, ◌∙◌, Bool, true, false, not, ◌&&◌, ◌||◌, none, some, List, [], ◌∷◌, String, any,
  all, arith, string_eq, &&-assoc,
}
use pf.Base.Dict.{lookup}
use pf.Grant.{Grant, Boundary, Role, SshGrant, as_ssh}
use pf.Grant.Permission.{SshCapability, SshPermission, capability_eq}
use pf.Ssh.Ttl.{within, tolerates}
use pf.Ssh.Capabilities
use pf.Ssh.Capabilities.Laws.{lasts as capability_lasts, mentions_capability}
use pf.Ssh.Capabilities.Laws as CapabilityLaws
use pf.Ssh.Commands.{permits}
use pf.Ssh.Commands
use pf.Ssh.Commands.Laws as CommandLaws
use pf.Ssh.Commands.Laws.{lasts, mentions_command}
use pf.Ssh.Decision.{
  SshChecker, SshDecision, triplet_match, covering, under_ceiling, granted_decision, decide_covers,
}

-- Entries that name what is asked for, on the side of the grants and on the side of the denials.
module _ (covers mentions : SshPermission → Bool) (t : ℕ) where
  -- The entry lets a session of `t` seconds through.
  abbrev pub grants_it : SshPermission → Bool
  grants_it p = covers p && (mentions p && within t p.max_session_ttl_s)

  -- The entry, on a denied list, stops a session of `t` seconds.
  abbrev pub stops_it : SshPermission → Bool
  stops_it p = covers p && (mentions p && not (tolerates t p.max_session_ttl_s))

-- An ssh grant whose filter matches the host, with a test on its permission.
module _ (identity_id : ℕ) (tag_id_list boundary_id_list : List ℕ) where
  abbrev pub on_host : (SshPermission → Bool) → Grant → Bool
  on_host test g = elim (as_ssh g) [
    | none ↦ false
    | some s ↦ triplet_match s identity_id tag_id_list boundary_id_list && test s.permission
  ]

  -- The policy: some role has a grant, each ceiling of a boundary has one, and no denied list of a
  -- boundary stops it.
  abbrev pub authorizes :
      (SshPermission → Bool) → (SshPermission → Bool) → ℕ → List Boundary → List Role → Bool
  authorizes covers mentions t boundaries roles =
      any (λ r. any (on_host (grants_it covers mentions t)) r.grant_list) roles
      && all
          (λ b.
            elim b.ceiling_list [
              | none ↦ true
              | some ceiling ↦ any (on_host (grants_it covers mentions t)) ceiling
            ]
            && not (any (on_host (stops_it covers mentions t)) b.denied_list))
          boundaries

module _ (covers mentions : SshPermission → Bool) (t : ℕ) where
  -- The same for a checker, whose lists hold matching ssh grants alone.
  abbrev pub admits : SshChecker → Bool
  admits c =
      any (λ g. grants_it covers mentions t g.permission) c.granted
      && all (λ ceiling. any (λ g. grants_it covers mentions t g.permission) ceiling) c.ceilings
      && not (any (λ g. stops_it covers mentions t g.permission) c.denied)

  any-covering :
      (gs : List SshGrant)
      → any (λ p. mentions p && within t p.max_session_ttl_s) (covering gs covers)
        ≡ any (λ g. grants_it covers mentions t g.permission) gs
  unfolding covering
  any-covering [] = refl
  any-covering (g ∷ gs) = ground (arith, any-covering gs)

  all-covering :
      (gs : List SshGrant)
      → all (λ p. not (mentions p) || tolerates t p.max_session_ttl_s) (covering gs covers)
        ≡ not (any (λ g. stops_it covers mentions t g.permission) gs)
  unfolding covering
  all-covering [] = refl
  all-covering (g ∷ gs) = ground (arith, all-covering gs)

  -- A view of a decision that goes through intersections as a conjunction.
  foldl-under_ceiling :
      (view : SshDecision → Bool)
      → ((d : SshDecision) (gs : List SshGrant)
          → view (under_ceiling covers d gs)
            ≡ (view d && any (λ g. grants_it covers mentions t g.permission) gs))
      → (ceilings : List (List SshGrant)) (d : SshDecision)
      → view (foldl (under_ceiling covers) d ceilings)
        ≡ (view d && all (λ gs. any (λ g. grants_it covers mentions t g.permission) gs) ceilings)
  foldl-under_ceiling view one [] d = ground arith
  foldl-under_ceiling view one (gs ∷ ceilings) d =
      ground (arith, foldl-under_ceiling view one ceilings (under_ceiling covers d gs), one d gs)

module _ (covers : SshPermission → Bool) (t : ℕ) where
  capability-under_ceiling :
      (c : SshCapability) (d : SshDecision) (gs : List SshGrant)
      → capability_lasts t (lookup c (under_ceiling covers d gs).capability_ttl) ≡ (
          capability_lasts t (lookup c d.capability_ttl)
          && any (λ g. grants_it covers (mentions_capability c) t g.permission) gs)
  unfolding under_ceiling
  capability-under_ceiling c d gs = ground (
    arith,
    CapabilityLaws.lasts-intersect t c d.capability_ttl
        (Capabilities.allowed_by (covering gs covers)),
    CapabilityLaws.lasts-allowed_by t c (covering gs covers),
    any-covering covers (mentions_capability c) t gs,
  )

  command-under_ceiling :
      (command : String) (d : SshDecision) (gs : List SshGrant)
      → lasts t (permits (under_ceiling covers d gs).commands command) ≡ (
          lasts t (permits d.commands command)
          && any (λ g. grants_it covers (mentions_command command) t g.permission) gs)
  unfolding under_ceiling
  command-under_ceiling command d gs = ground (
    arith,
    CommandLaws.lasts-intersect t command d.commands (Commands.allowed_by (covering gs covers)),
    CommandLaws.lasts-allowed_by t command (covering gs covers),
    any-covering covers (mentions_command command) t gs,
  )

  pub capability-decide_covers :
      (c : SshChecker) (capability : SshCapability)
      → capability_lasts t (lookup capability (decide_covers c covers).capability_ttl)
        ≡ admits covers (mentions_capability capability) t c
  unfolding decide_covers granted_decision
  capability-decide_covers c capability =
      let bounded : SshDecision =
        foldl (under_ceiling covers) (granted_decision covers c) c.ceilings in
      CapabilityLaws.lasts-subtract t capability bounded.capability_ttl (covering c.denied covers)
      ∙ rw (
        all-covering covers (mentions_capability capability) t c.denied,
        foldl-under_ceiling covers (mentions_capability capability) t
            (λ d. capability_lasts t (lookup capability d.capability_ttl))
            (capability-under_ceiling capability) c.ceilings (granted_decision covers c),
        CapabilityLaws.lasts-allowed_by t capability (covering c.granted covers),
        any-covering covers (mentions_capability capability) t c.granted,
        &&-assoc,
      )

  pub command-decide_covers :
      (c : SshChecker) (command : String)
      → lasts t (permits (decide_covers c covers).commands command)
        ≡ admits covers (mentions_command command) t c
  unfolding decide_covers granted_decision permits
  command-decide_covers c command =
      let bounded : SshDecision =
        foldl (under_ceiling covers) (granted_decision covers c) c.ceilings in
      CommandLaws.lasts-subtract t command bounded.commands (covering c.denied covers)
      ∙ rw (
        all-covering covers (mentions_command command) t c.denied,
        foldl-under_ceiling covers (mentions_command command) t
            (λ d. lasts t (permits d.commands command)) (command-under_ceiling command) c.ceilings
            (granted_decision covers c),
        CommandLaws.lasts-allowed_by t command (covering c.granted covers),
        any-covering covers (mentions_command command) t c.granted,
        &&-assoc,
      )
