-- ===== src/Naming/Unchanged.antt =====
-- Deleting a tag or an identity changes no SSH decision about anybody else.
use mathlib.Core.Option
use pf.Base.{
  ℕ, ◌≡◌, refl, ◌∙◌, sym, Bool, true, false, not, ◌&&◌, Option, none, some, List, [], ◌∷◌, map,
  String, ◌==◌, nat_eq, option_eq, contains, any, all, arith, Option-cases, inl, inr,
}
use pf.Base.Dict.{lookup}
use pf.Grant.{Grant, Boundary, Role, SshGrant}
use pf.Grant.Permission.{SshPermission, SshCapability, capability_eq}
use pf.Checker.Creation.{contains_of_all_in}
use pf.Naming.Names.{
  names_identity, without_identity, lists, filter_names, permission_names, tag_object_names,
  rewrite_grant, rewrite,
}
use pf.Ssh.Capabilities.Laws.{lasts as capability_lasts, mentions_capability}
use pf.Ssh.Commands.{permits}
use pf.Ssh.Commands.Laws.{lasts, mentions_command}
use pf.Ssh.Decision.{triplet_match, init, decide, covers_username}
use pf.Ssh.Decision.Laws.{on_host, authorizes, grants_it, stops_it}
use pf.Ssh.Decision.Policy.{capability-decide, command-decide}

module _ (identity_id : ℕ) (tag_id_list boundary_id_list : List ℕ) where
  -- Two pairs of boundaries and roles decide alike, for every username, capability, command and
  -- length of session.
  abbrev pub DecidesAlike : List Boundary → List Role → List Boundary → List Role → Type 0
  DecidesAlike bs rs bs' rs' =
      (username : String) (unix_username : Option String) (t : ℕ)
      → ((capability : SshCapability)
          → capability_lasts t (
              lookup capability
                (decide (init identity_id tag_id_list boundary_id_list bs' rs') username
                  unix_username).capability_ttl)
            ≡ capability_lasts t (
                lookup capability
                  (decide (init identity_id tag_id_list boundary_id_list bs rs) username
                    unix_username).capability_ttl))
        × ((command : String)
            → lasts t (
                permits
                  (decide (init identity_id tag_id_list boundary_id_list bs' rs') username
                    unix_username).commands
                  command)
              ≡ lasts t (
                  permits
                    (decide (init identity_id tag_id_list boundary_id_list bs rs) username
                      unix_username).commands
                    command))

-- A way to clean every list of grants.
module _ (clean : List Grant → List Grant) where
  abbrev pub clean_role : Role → Role
  clean_role r = record r { grant_list = clean r.grant_list }

  -- A ceiling that loses its last grant is the empty list, and a missing one stays missing.
  abbrev pub clean_boundary : Boundary → Boundary
  clean_boundary b = record b {
    ceiling_list = Option.map clean b.ceiling_list;
    denied_list = clean b.denied_list;
  }

  module _ (identity_id : ℕ) (tag_id_list boundary_id_list : List ℕ) where
    -- The cleaning leaves what a host is asked about.
    abbrev KeepsHost : Type 0
    KeepsHost =
        (test : SshPermission → Bool) (gs : List Grant)
        → any (on_host identity_id tag_id_list boundary_id_list test) (clean gs)
          ≡ any (on_host identity_id tag_id_list boundary_id_list test) gs

    any-clean_role :
        KeepsHost
        → (test : SshPermission → Bool) (rs : List Role)
        → any
            (λ r. any (on_host identity_id tag_id_list boundary_id_list test) r.grant_list)
            (map clean_role rs)
          ≡ any (λ r. any (on_host identity_id tag_id_list boundary_id_list test) r.grant_list) rs
    any-clean_role keeps test [] = refl
    any-clean_role keeps test (r ∷ rs) =
        ground (arith, keeps test r.grant_list, any-clean_role keeps test rs)

    boundary_admits : (SshPermission → Bool) → (SshPermission → Bool) → Boundary → Bool
    boundary_admits test stop b =
        elim b.ceiling_list [
          | none ↦ true
          | some ceiling ↦ any (on_host identity_id tag_id_list boundary_id_list test) ceiling
        ]
        && not (any (on_host identity_id tag_id_list boundary_id_list stop) b.denied_list)

    boundary_admits-clean :
        KeepsHost
        → (test stop : SshPermission → Bool) (b : Boundary)
        → boundary_admits test stop (clean_boundary b) ≡ boundary_admits test stop b
    unfolding boundary_admits
    boundary_admits-clean keeps test stop b = elim (Option-cases b.ceiling_list) [
      | inl e ↦ ground (arith, keeps stop b.denied_list)
      | inr (gs, e) ↦ ground (arith, keeps test gs, keeps stop b.denied_list)
    ]

    all-clean_boundary :
        KeepsHost
        → (test stop : SshPermission → Bool) (bs : List Boundary)
        → all (boundary_admits test stop) (map clean_boundary bs)
          ≡ all (boundary_admits test stop) bs
    all-clean_boundary keeps test stop [] = refl
    all-clean_boundary keeps test stop (b ∷ bs) =
        ground
          (arith, boundary_admits-clean keeps test stop b, all-clean_boundary keeps test stop bs)

    authorizes-clean :
        KeepsHost
        → (covers mentions : SshPermission → Bool) (t : ℕ) (bs : List Boundary) (rs : List Role)
        → authorizes identity_id tag_id_list boundary_id_list covers mentions t
            (map clean_boundary bs)
            (map clean_role rs)
          ≡ authorizes identity_id tag_id_list boundary_id_list covers mentions t bs rs
    unfolding boundary_admits
    authorizes-clean keeps covers mentions t bs rs = rw (
      any-clean_role keeps (grants_it covers mentions t) rs,
      all-clean_boundary keeps (grants_it covers mentions t) (stops_it covers mentions t) bs,
    )

    clean-DecidesAlike :
        KeepsHost
        → (bs : List Boundary) (rs : List Role)
        → DecidesAlike identity_id tag_id_list boundary_id_list bs rs
            (map clean_boundary bs)
            (map clean_role rs)
    clean-DecidesAlike keeps bs rs username unix_username t =
        let covers : SshPermission → Bool = λ p. covers_username p username unix_username in
        (
          λ capability.
              capability-decide identity_id tag_id_list boundary_id_list (map clean_boundary bs)
                (map clean_role rs) username unix_username capability t
              ∙ authorizes-clean keeps covers (mentions_capability capability) t bs rs
              ∙ sym (
                  capability-decide identity_id tag_id_list boundary_id_list bs rs username
                    unix_username capability t),
          λ command.
              command-decide identity_id tag_id_list boundary_id_list (map clean_boundary bs)
                (map clean_role rs) username unix_username command t
              ∙ authorizes-clean keeps covers (mentions_command command) t bs rs
              ∙ sym (
                  command-decide identity_id tag_id_list boundary_id_list bs rs username
                    unix_username command t),
        )

module _ (identity_id : ℕ) (tag_id_list boundary_id_list : List ℕ) where
  -- A grant that asks for a tag that the host lacks does not match the host.
  triplet_match-lists :
      (s : SshGrant) (t : ℕ)
      → contains tag_id_list t ≡ false
      → lists s.filter.tag_id_list t ≡ true
      → triplet_match s identity_id tag_id_list boundary_id_list ≡ false
  unfolding triplet_match
  triplet_match-lists s t lacks h = elim (Option-cases s.filter.tag_id_list) [
    | inl e ↦ ground arith
    | inr (wanted, e) ↦ ground (arith, contains_of_all_in wanted tag_id_list t)
  ]

  on_host-rewrite_grant :
      (test : SshPermission → Bool) (g : Grant) (t : ℕ)
      → contains tag_id_list t ≡ false
      → elim (rewrite_grant g t) [
        | none ↦ false
        | some g' ↦ on_host identity_id tag_id_list boundary_id_list test g'
      ]
        ≡ on_host identity_id tag_id_list boundary_id_list test g
  unfolding rewrite_grant filter_names tag_object_names permission_names
  on_host-rewrite_grant test (Grant.ssh s) t lacks = ground (arith, triplet_match-lists s t lacks)
  on_host-rewrite_grant test (Grant.identity s) t lacks = ground arith
  on_host-rewrite_grant test (Grant.live s) t lacks = ground arith
  on_host-rewrite_grant test (Grant.tag s) t lacks = ground arith
  on_host-rewrite_grant test _ t lacks = refl

  rewrite-KeepsHost :
      (t : ℕ)
      → contains tag_id_list t ≡ false
      → KeepsHost (λ gs. rewrite gs t) identity_id tag_id_list boundary_id_list
  unfolding rewrite
  rewrite-KeepsHost t lacks test [] = refl
  rewrite-KeepsHost t lacks test (g ∷ gs) = elim (Option-cases (rewrite_grant g t)) [
    | inl e ↦
        ground (arith, rewrite-KeepsHost t lacks test gs, on_host-rewrite_grant test g t lacks)
    | inr (g', e) ↦
        ground (arith, rewrite-KeepsHost t lacks test gs, on_host-rewrite_grant test g t lacks)
  ]

  -- Deleting a tag that a host does not have, and rewriting every role and boundary for it, changes
  -- no SSH decision about that host.
  pub rewrite-DecidesAlike :
      (t : ℕ)
      → contains tag_id_list t ≡ false
      → (bs : List Boundary) (rs : List Role)
      → DecidesAlike identity_id tag_id_list boundary_id_list bs rs
          (map (clean_boundary (λ gs. rewrite gs t)) bs)
          (map (clean_role (λ gs. rewrite gs t)) rs)
  rewrite-DecidesAlike t lacks bs rs =
      clean-DecidesAlike (λ gs. rewrite gs t) identity_id tag_id_list boundary_id_list
        (rewrite-KeepsHost t lacks) bs rs

  on_host-names_identity :
      (test : SshPermission → Bool) (g : Grant) (deleted : ℕ)
      → (identity_id == deleted) ≡ false
      → names_identity g deleted ≡ true
      → on_host identity_id tag_id_list boundary_id_list test g ≡ false
  unfolding names_identity triplet_match
  on_host-names_identity test (Grant.ssh s) deleted other h = elim (Option-cases s.filter.id) [
    | inl e ↦ ground arith
    | inr (id, e) ↦ ground arith
  ]
  on_host-names_identity test (Grant.identity s) deleted other h = refl
  on_host-names_identity test _ deleted other h = cc

  without_identity-KeepsHost :
      (deleted : ℕ)
      → (identity_id == deleted) ≡ false
      → KeepsHost (λ gs. without_identity gs deleted) identity_id tag_id_list boundary_id_list
  unfolding without_identity
  without_identity-KeepsHost deleted other test [] = refl
  without_identity-KeepsHost deleted other test (g ∷ gs) = ground (
    arith,
    without_identity-KeepsHost deleted other test gs,
    on_host-names_identity test g deleted other,
  )

  -- Deleting an identity, and removing the grants that name it from every role and boundary, changes
  -- no SSH decision about any other identity.
  pub without_identity-DecidesAlike :
      (deleted : ℕ)
      → (identity_id == deleted) ≡ false
      → (bs : List Boundary) (rs : List Role)
      → DecidesAlike identity_id tag_id_list boundary_id_list bs rs
          (map (clean_boundary (λ gs. without_identity gs deleted)) bs)
          (map (clean_role (λ gs. without_identity gs deleted)) rs)
  without_identity-DecidesAlike deleted other bs rs =
      clean-DecidesAlike (λ gs. without_identity gs deleted) identity_id tag_id_list
        boundary_id_list (without_identity-KeepsHost deleted other) bs rs
