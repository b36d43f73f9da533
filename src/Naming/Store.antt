-- ===== src/Naming/Store.antt =====
-- The tables of roles and boundaries, `update` of src/provablyfine/api/model/role.py and boundary.py,
-- and the loops of `find` and `remove` that identity_grants.py, bastion_grants.py and tag_grants.py
-- share. Left out are the members of a role, and of an audit entry its time, author, cause and
-- references.
pub mod Laws
pub mod Owners
pub mod Found
pub mod Run
use mathlib.Core.List.{foldl}
use mathlib.Core.Option
use pf.Base.{
  ℕ, Bool, true, false, ◌&&◌, ◌||◌, Option, none, some, List, [], ◌∷◌, ◌++◌, map, String, ◌==◌,
  nat_eq, string_eq, get_or, row_of, any, or_empty, if◌then◌else◌, filter_map, contains,
}
use pf.Grant.{Grant, Role, Boundary}

-- The entries of the audit log, each with the id, the new value and the old one.
pub data Entry : Type 0 where
  role_update_name role_update_description : ℕ → String → Option String → Entry
  role_update_grant_list : ℕ → List Grant → Option (List Grant) → Entry
  boundary_update_name boundary_update_description : ℕ → String → Option String → Entry
  boundary_update_ceiling_list : ℕ → Option (List Grant) → Option (List Grant) → Entry
  boundary_update_denied_list : ℕ → List Grant → Option (List Grant) → Entry

pub record Store : Type 0 where
  pub roles : List Role
  pub boundaries : List Boundary
  pub entries : List Entry

-- `if x is not None: audit_log.create(…)`
entry_for {ℓ} : {A : Type ℓ} → Option A → (A → Entry) → List Entry
entry_for none entry = []
entry_for (some a) entry = entry a ∷ []

-- The arguments of `role.update`, `none` where they are left out.
pub record RoleUpdate : Type 0 where
  pub name : Option String
  pub description : Option String
  pub grant_list : Option (List Grant)

-- `UPDATE role SET … WHERE id = …`
set_role : ℕ → RoleUpdate → Role → Role
set_role id u r =
    if r.id == id
    then record r {
      name = get_or u.name r.name;
      description = get_or u.description r.description;
      grant_list = get_or u.grant_list r.grant_list;
    }
    else r

pub update_role : ℕ → RoleUpdate → Store → Store
unfolding entry_for set_role
update_role id u s =
    let old = row_of (λ r. r.id) id s.roles in
    record s {
      roles = map (set_role id u) s.roles;
      entries =
          ((s.entries
              ++ entry_for u.name (λ n. role_update_name id n (Option.map (λ r. r.name) old)))
            ++ entry_for u.description
                (λ d. role_update_description id d (Option.map (λ r. r.description) old)))
          ++ entry_for u.grant_list
              (λ gs. role_update_grant_list id gs (Option.map (λ r. r.grant_list) old));
    }

-- The arguments of `boundary.update`, `none` for `UNSET`.
pub record BoundaryUpdate : Type 0 where
  pub name : Option String
  pub description : Option String
  pub ceiling_list : Option (Option (List Grant))
  pub denied_list : Option (List Grant)

old_ceiling : Option Boundary → Option (List Grant)
old_ceiling none = none
old_ceiling (some b) = b.ceiling_list

set_boundary : ℕ → BoundaryUpdate → Boundary → Boundary
set_boundary id u b =
    if b.id == id
    then record b {
      name = get_or u.name b.name;
      description = get_or u.description b.description;
      ceiling_list = get_or u.ceiling_list b.ceiling_list;
      denied_list = get_or u.denied_list b.denied_list;
    }
    else b

pub update_boundary : ℕ → BoundaryUpdate → Store → Store
unfolding entry_for set_boundary
update_boundary id u s =
    let old = row_of (λ b. b.id) id s.boundaries in
    record s {
      boundaries = map (set_boundary id u) s.boundaries;
      entries =
          (((s.entries
                ++ entry_for u.name (λ n. boundary_update_name id n (Option.map (λ b. b.name) old)))
              ++ entry_for u.description
                  (λ d. boundary_update_description id d (Option.map (λ b. b.description) old)))
            ++ entry_for u.ceiling_list
                (λ gs. boundary_update_ceiling_list id gs (old_ceiling old)))
          ++ entry_for u.denied_list
              (λ gs. boundary_update_denied_list id gs (Option.map (λ b. b.denied_list) old));
    }

-- `Owner`
pub data Owner : Type 0 where
  role boundary : ℕ → String → Owner

-- `==` of two owners.
abbrev pub same_owner : Owner → Owner → Bool
same_owner (role i n) (role j m) = i == j && n == m
same_owner (boundary i n) (boundary j m) = i == j && n == m
same_owner _ _ = false

-- One round of `list(dict.fromkeys(changes))`.
add_key : List Owner → Owner → List Owner
add_key owners o = if any (same_owner o) owners then owners else owners ++ (o ∷ [])

from_keys : List Owner → List Owner
unfolding add_key
from_keys = foldl add_key []

module _ (names : Grant → Bool) where
  role_owner : Role → Option Owner
  role_owner r = if any names r.grant_list then some (role r.id r.name) else none

  boundary_owner : Boundary → Option Owner
  boundary_owner b =
      if any names (b.denied_list ++ or_empty b.ceiling_list)
      then some (boundary b.id b.name)
      else none

  -- `find`
  unfoldable pub find : Store → List Owner
  unfolding role_owner boundary_owner
  find s = filter_map role_owner s.roles ++ filter_map boundary_owner s.boundaries

  module _ (clean : List Grant → List Grant) where
    -- The body of the loop over the roles.
    pub remove_role : Store × List Owner → Role → Store × List Owner
    remove_role (s, changes) r =
        if any names r.grant_list
        then (
          update_role r.id
              (record { name = none; description = none; grant_list = some (clean r.grant_list) })
              s,
          changes ++ (role r.id r.name ∷ []),
        )
        else (s, changes)

    -- The body of the loop over the boundaries.
    remove_boundary : Store × List Owner → Boundary → Store × List Owner
    remove_boundary (s, changes) b =
        let denied_removed = any names b.denied_list in
        let ceiling_removed = any names (or_empty b.ceiling_list) in
        let owner = boundary b.id b.name in
        if denied_removed || ceiling_removed
        then (
          update_boundary b.id
              (record {
                name = none;
                description = none;
                ceiling_list =
                    if ceiling_removed then some (some (clean (or_empty b.ceiling_list))) else none;
                denied_list = if denied_removed then some (clean b.denied_list) else none;
              })
              s,
          (changes ++ (if denied_removed then owner ∷ [] else []))
              ++ (if ceiling_removed then owner ∷ [] else []),
        )
        else (s, changes)

    -- The two loops.
    remove_loops : Store → Store × List Owner
    unfolding remove_role remove_boundary
    remove_loops s =
        let (s', changes) = foldl remove_role (s, []) s.roles in
        foldl remove_boundary (s', changes) s'.boundaries

    -- `remove`
    unfoldable pub remove : Store → Store × List Owner
    unfolding remove_loops from_keys
    remove s = let (s', changes) = remove_loops s in (s', from_keys changes)
