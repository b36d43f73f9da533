-- ===== src/Ssh/Decision.antt =====
-- `SSHChecker` of src/provablyfine/api/grant.py: the decision for one host and one username, and the
-- list of decisions that is shown. Log calls are left out.
pub mod Laws
pub mod Policy
pub mod Listing
pub mod Run
pub mod Tests
use mathlib.Core.List.{foldl}
use mathlib.Core.Option
use pf.Base.{
  ℕ, Bool, true, false, not, ◌&&◌, ◌||◌, Option, none, some, List, [], ◌∷◌, ◌++◌, map, String, ◌==◌,
  option_eq, nat_eq, string_eq, contains, is_some, filter, filter_map, flat_map, if◌then◌else◌,
}
use pf.Base.Dict.{keys}
use pf.Grant.{Grant, Boundary, Role, SshGrant, as_ssh}
use pf.Grant.Permission.{SshCapability, SshPermission}
use pf.Checker.IdentityChecker.{is_empty, all_in}
use pf.Ssh.Capabilities
use pf.Ssh.Capabilities.{CapabilityTtl}
use pf.Ssh.Commands
use pf.Ssh.Commands.{SshCommandPermissions}

unfoldable pub triplet_match : SshGrant → ℕ → List ℕ → List ℕ → Bool
triplet_match g identity_id tag_id_list boundary_id_list =
    if is_some g.filter.id && not (g.filter.id == some identity_id)
    then false
    else if elim g.filter.tag_id_list [
      | none ↦ false
      | some wanted ↦ is_empty wanted || not (all_in wanted tag_id_list)
    ]
    then false
    else if elim g.filter.boundary_id_list [
      | none ↦ false
      | some wanted ↦ not (all_in wanted boundary_id_list)
    ]
    then false
    else true

unfoldable pub resolve_username : String → Option String → Option String
resolve_username entry unix_username = if entry == "{self}" then unix_username else some entry

-- `_ssh_grants`
ssh_grants : List Grant → List SshGrant
ssh_grants = filter_map as_ssh

unfoldable pub covers_username : SshPermission → String → Option String → Bool
unfolding resolve_username
covers_username p username unix_username = elim p.username_list [
  | none ↦ true
  | some entries ↦ contains (filter_map (λ e. resolve_username e unix_username) entries) username
]

unfoldable pub covers_unnamed_username : SshPermission → Bool
covers_unnamed_username p = not (is_some p.username_list)

pub record SshDecision : Type 0 where
  pub commands : SshCommandPermissions
  pub capability_ttl : CapabilityTtl

-- The property `capabilities`.
unfoldable pub capabilities : SshDecision → List SshCapability
capabilities d = keys d.capability_ttl

pub record SshChecker : Type 0 where
  pub granted : List SshGrant
  pub ceilings : List (List SshGrant)
  pub denied : List SshGrant

module _ (identity_id : ℕ) (tag_id_list boundary_id_list : List ℕ) where
  pub matching : List Grant → List SshGrant
  unfolding ssh_grants triplet_match
  matching grant_list =
      filter (λ g. triplet_match g identity_id tag_id_list boundary_id_list) (ssh_grants grant_list)

  pub init : List Boundary → List Role → SshChecker
  unfolding matching
  init boundaries roles = record {
    granted = flat_map (λ role. matching role.grant_list) roles;
    ceilings = filter_map (λ b. Option.map matching b.ceiling_list) boundaries;
    denied = flat_map (λ b. matching b.denied_list) boundaries;
  }

-- `_covering`
covering : List SshGrant → (SshPermission → Bool) → List SshPermission
covering grants covers = map (λ g. g.permission) (filter (λ g. covers g.permission) grants)

-- One round of the loop over the ceilings.
under_ceiling : (SshPermission → Bool) → SshDecision → List SshGrant → SshDecision
unfolding covering
under_ceiling covers d ceiling =
    let permissions = covering ceiling covers in
    record {
      commands = Commands.intersect d.commands (Commands.allowed_by permissions);
      capability_ttl =
          Capabilities.intersect d.capability_ttl (Capabilities.allowed_by permissions);
    }

-- What the roles grant, before the boundaries.
granted_decision : (SshPermission → Bool) → SshChecker → SshDecision
granted_decision covers c =
    let granted = covering c.granted covers in
    record {
      commands = Commands.allowed_by granted;
      capability_ttl = Capabilities.allowed_by granted;
    }

-- `_decide`
pub decide_covers : SshChecker → (SshPermission → Bool) → SshDecision
decide_covers c covers =
    let bounded = foldl (under_ceiling covers) (granted_decision covers c) c.ceilings in
    let denied = covering c.denied covers in
    record {
      commands = Commands.subtract bounded.commands denied;
      capability_ttl = Capabilities.subtract bounded.capability_ttl denied;
    }

pub decide : SshChecker → String → Option String → SshDecision
decide c username unix_username = decide_covers c (λ p. covers_username p username unix_username)

-- The inner loop of `_candidate_usernames`.
add_username : Option String → List String → String → List String
add_username unix_username usernames entry = elim (resolve_username entry unix_username) [
  | none ↦ usernames
  | some u ↦ if contains usernames u then usernames else usernames ++ (u ∷ [])
]

-- The outer loop, over the names found so far and the wildcard flag.
add_grant : Option String → List String × Bool → SshGrant → List String × Bool
add_grant unix_username (usernames, wildcard) g = elim g.permission.username_list [
  | none ↦ (usernames, true)
  | some entries ↦ (foldl (add_username unix_username) usernames entries, wildcard)
]

pub candidate_usernames : SshChecker → Option String → List String × Bool
candidate_usernames c unix_username = foldl (add_grant unix_username) ([], false) c.granted

-- The username is `none` for "any other username".
pub list_decisions : SshChecker → Option String → List (Option String × SshDecision)
list_decisions c unix_username =
    let (usernames, wildcard) = candidate_usernames c unix_username in
    map (λ u. (some u, decide c u unix_username)) usernames
    ++ (if wildcard then (none, decide_covers c covers_unnamed_username) ∷ [] else [])
