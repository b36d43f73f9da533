-- ===== src/Ssh/Decision/Policy.antt =====
-- The policy that a decision of `SSHChecker` follows, over the boundaries and roles themselves.
use mathlib.Core.Option
use pf.Base.{
  ℕ, ◌≡◌, refl, ◌∙◌, Bool, true, not, ◌&&◌, ◌||◌, Option, none, some, List, [], ◌∷◌, ◌++◌, String,
  any, all, filter_map, flat_map, arith, any-append, Option-cases, inl, inr,
}
use pf.Base.Dict.{lookup}
use pf.Grant.{Grant, Boundary, Role, SshGrant}
use pf.Grant.Permission.{SshCapability, SshPermission, capability_eq}
use pf.Ssh.Capabilities.Laws.{lasts as capability_lasts, mentions_capability}
use pf.Ssh.Commands.{permits}
use pf.Ssh.Commands.Laws.{lasts, mentions_command}
use pf.Ssh.Decision.{matching, init, decide, covers_username}
use pf.Ssh.Decision.Laws.{
  grants_it, stops_it, on_host, authorizes, admits, capability-decide_covers, command-decide_covers,
}

module _ (identity_id : ℕ) (tag_id_list boundary_id_list : List ℕ) where
  any-matching :
      (test : SshPermission → Bool) (gs : List Grant)
      → any (λ g. test g.permission) (matching identity_id tag_id_list boundary_id_list gs)
        ≡ any (on_host identity_id tag_id_list boundary_id_list test) gs
  unfolding matching
  any-matching test [] = refl
  any-matching test (g ∷ gs) = ground (arith, any-matching test gs)

  any-matching_roles :
      (test : SshPermission → Bool) (rs : List Role)
      → any
          (λ g. test g.permission)
          (flat_map (λ r. matching identity_id tag_id_list boundary_id_list r.grant_list) rs)
        ≡ any (λ r. any (on_host identity_id tag_id_list boundary_id_list test) r.grant_list) rs
  any-matching_roles test [] = refl
  any-matching_roles test (r ∷ rs) = ground (
    arith,
    any-append (λ (g : SshGrant). test g.permission)
        (matching identity_id tag_id_list boundary_id_list r.grant_list)
        (flat_map (λ (r : Role). matching identity_id tag_id_list boundary_id_list r.grant_list)
          rs),
    any-matching test r.grant_list,
    any-matching_roles test rs,
  )

  admits_boundaries :
      (test stop : SshPermission → Bool) (bs : List Boundary)
      → (all
            (λ ceiling. any (λ g. test g.permission) ceiling)
            (filter_map
              (λ b. Option.map (matching identity_id tag_id_list boundary_id_list) b.ceiling_list)
              bs)
          && not (
              any
                (λ g. stop g.permission)
                (flat_map
                  (λ b. matching identity_id tag_id_list boundary_id_list b.denied_list)
                  bs)))
        ≡ all
            (λ b.
              elim b.ceiling_list [
                | none ↦ true
                | some ceiling ↦ any (on_host identity_id tag_id_list boundary_id_list test) ceiling
              ]
              && not (any (on_host identity_id tag_id_list boundary_id_list stop) b.denied_list))
            bs
  admits_boundaries test stop [] = refl
  admits_boundaries test stop (b ∷ bs) = elim (Option-cases b.ceiling_list) [
    | inl e ↦ ground (arith, facts, any-matching stop b.denied_list, admits_boundaries test stop bs)
    | inr (ceiling, e) ↦ ground (
      arith,
      facts,
      any-matching test ceiling,
      any-matching stop b.denied_list,
      admits_boundaries test stop bs,
    )
  ]
    where
      facts :
          any
            (λ (g : SshGrant). stop g.permission)
            (matching identity_id tag_id_list boundary_id_list b.denied_list
              ++ flat_map
                  (λ (b : Boundary).
                    matching identity_id tag_id_list boundary_id_list b.denied_list)
                  bs)
          ≡ (any
                (λ (g : SshGrant). stop g.permission)
                (matching identity_id tag_id_list boundary_id_list b.denied_list)
              || any
                  (λ (g : SshGrant). stop g.permission)
                  (flat_map
                    (λ (b : Boundary).
                      matching identity_id tag_id_list boundary_id_list b.denied_list)
                    bs))
      facts =
          any-append (λ (g : SshGrant). stop g.permission)
            (matching identity_id tag_id_list boundary_id_list b.denied_list)
            (flat_map
              (λ (b : Boundary). matching identity_id tag_id_list boundary_id_list b.denied_list)
              bs)

  admits-authorizes :
      (covers mentions : SshPermission → Bool) (t : ℕ) (bs : List Boundary) (rs : List Role)
      → admits covers mentions t (init identity_id tag_id_list boundary_id_list bs rs)
        ≡ authorizes identity_id tag_id_list boundary_id_list covers mentions t bs rs
  unfolding init
  admits-authorizes covers mentions t bs rs = ground (
    arith,
    any-matching_roles (grants_it covers mentions t) rs,
    admits_boundaries (grants_it covers mentions t) (stops_it covers mentions t) bs,
  )

  -- For every username, capability and length of session: the decision gives the caller the
  -- capability for that long exactly when some role has an ssh grant that matches the host, covers
  -- the username, names the capability and lasts that long, every ceiling has one too, and no
  -- matching denied entry that covers the username and names the capability has a shorter bound
  -- or none.
  pub capability-decide :
      (bs : List Boundary) (rs : List Role) (username : String) (unix_username : Option String)
      (capability : SshCapability) (t : ℕ)
      → capability_lasts t (
          lookup capability
            (decide
              (init identity_id tag_id_list boundary_id_list bs rs)
              username
              unix_username).capability_ttl)
        ≡ authorizes identity_id tag_id_list boundary_id_list
            (λ p. covers_username p username unix_username)
            (mentions_capability capability)
            t
            bs
            rs
  unfolding decide
  capability-decide bs rs username unix_username capability t =
      let covers : SshPermission → Bool = λ p. covers_username p username unix_username in
      let c = init identity_id tag_id_list boundary_id_list bs rs in
      capability-decide_covers covers t c capability
      ∙ admits-authorizes covers (mentions_capability capability) t bs rs

  -- The same for the commands: looking each command up by name, with a default for those that no
  -- entry names, gives what the policy says of that command alone.
  pub command-decide :
      (bs : List Boundary) (rs : List Role) (username : String) (unix_username : Option String)
      (command : String) (t : ℕ)
      → lasts t (
          permits
            (decide
              (init identity_id tag_id_list boundary_id_list bs rs)
              username
              unix_username).commands
            command)
        ≡ authorizes identity_id tag_id_list boundary_id_list
            (λ p. covers_username p username unix_username)
            (mentions_command command)
            t
            bs
            rs
  unfolding decide
  command-decide bs rs username unix_username command t =
      let covers : SshPermission → Bool = λ p. covers_username p username unix_username in
      let c = init identity_id tag_id_list boundary_id_list bs rs in
      command-decide_covers covers t c command
      ∙ admits-authorizes covers (mentions_command command) t bs rs
