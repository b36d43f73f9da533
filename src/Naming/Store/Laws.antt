-- ===== src/Naming/Store/Laws.antt =====
-- What `remove` leaves in the tables: every list of grants is cleaned.
pub mod Entries
use mathlib.Core.List.{foldl}
use pf.Base.{
  ◌≡◌, refl, ap, ◌∙◌, sym, Bool, true, false, ◌||◌, none, some, List, [], ◌∷◌, map, ◌==◌, ==_refl,
  nat_eq, string_eq, any, or_empty, if◌then◌else◌, arith, distinct, foldl_rows, map_congr, map_same,
  Option-cases, inl, inr,
}
use pf.Grant.{Grant, Role, Boundary}
use pf.Naming.Unchanged.{clean_role, clean_boundary}
use pf.Naming.Store.{
  Store, Owner, update_role, update_boundary, set_role, set_boundary, remove_role, remove_boundary,
  remove_loops, remove,
}

-- A round that changes the roles, or the boundaries, if a test holds.
roles_if :
    (test : Bool) (s s' : Store) (c c' : List Owner) (f : Role → Role)
    → s'.roles ≡ map f s.roles
    → s'.boundaries ≡ s.boundaries
    → let p : Store × List Owner = if test then (s', c') else (s, c) in
      (p.0.roles ≡ map (if test then f else λ x. x) s.roles) × (p.0.boundaries ≡ s.boundaries)
roles_if true s s' c c' f h k = (h, k)
roles_if false s s' c c' f h k = (sym (map_same s.roles), refl)

boundaries_if :
    (test : Bool) (s s' : Store) (c c' : List Owner) (f : Boundary → Boundary)
    → s'.boundaries ≡ map f s.boundaries
    → s'.roles ≡ s.roles
    → let p : Store × List Owner = if test then (s', c') else (s, c) in
      (p.0.boundaries ≡ map (if test then f else λ x. x) s.boundaries) × (p.0.roles ≡ s.roles)
boundaries_if true s s' c c' f h k = (h, k)
boundaries_if false s s' c c' f h k = (sym (map_same s.boundaries), refl)

module _ (names : Grant → Bool) (clean : List Grant → List Grant) where
  -- What the round for a role makes of each row.
  abbrev role_round : Role → Role → Role
  role_round r =
      if any names r.grant_list
      then set_role r.id
          (record { name = none; description = none; grant_list = some (clean r.grant_list) })
      else λ x. x

  roles-loop :
      (rs : List Role) (p : Store × List Owner)
      → let after = (foldl (remove_role names clean) p rs).0 in
        (after.roles ≡ foldl (λ t r. map (role_round r) t) p.0.roles rs)
        × (after.boundaries ≡ p.0.boundaries)
  unfolding remove_role update_role
  roles-loop [] p = (refl, refl)
  roles-loop (r ∷ rs) (s, c) =
      let (a, b) = roles_if (any names r.grant_list) s _ c _ _ refl refl in
      let (a', b') = roles-loop rs (remove_role names clean (s, c) r) in
      (a' ∙ ap (λ t. foldl (λ t r. map (role_round r) t) t rs) a, b' ∙ b)

  pub boundaries-remove_roles :
      (s : Store) → (foldl (remove_role names clean) (s, []) s.roles).0.boundaries ≡ s.boundaries
  boundaries-remove_roles s = (roles-loop s.roles (s, [])).1

  abbrev boundary_round : Boundary → Boundary → Boundary
  boundary_round b =
      if any names b.denied_list || any names (or_empty b.ceiling_list)
      then set_boundary b.id (record {
        name = none;
        description = none;
        ceiling_list =
            if any names (or_empty b.ceiling_list)
            then some (some (clean (or_empty b.ceiling_list)))
            else none;
        denied_list = if any names b.denied_list then some (clean b.denied_list) else none;
      })
      else λ x. x

  boundaries-loop :
      (bs : List Boundary) (p : Store × List Owner)
      → let after = (foldl (remove_boundary names clean) p bs).0 in
        (after.boundaries ≡ foldl (λ t b. map (boundary_round b) t) p.0.boundaries bs)
        × (after.roles ≡ p.0.roles)
  unfolding remove_boundary update_boundary
  boundaries-loop [] p = (refl, refl)
  boundaries-loop (b ∷ bs) (s, c) =
      let (a, k) =
        boundaries_if (any names b.denied_list || any names (or_empty b.ceiling_list)) s _ c _ _
          refl refl in
      let (a', k') = boundaries-loop bs (remove_boundary names clean (s, c) b) in
      (a' ∙ ap (λ t. foldl (λ t r. map (boundary_round r) t) t bs) a, k' ∙ k)

  keeps_role : (r x : Role) → (role_round r x).id ≡ x.id
  unfolding set_role
  keeps_role r x = ground arith

  other_role : (r x : Role) → (x.id == r.id) ≡ false → role_round r x ≡ x
  unfolding set_role
  other_role r x h = ground arith

  keeps_boundary : (b x : Boundary) → (boundary_round b x).id ≡ x.id
  unfolding set_boundary
  keeps_boundary b x = ground arith

  other_boundary : (b x : Boundary) → (x.id == b.id) ≡ false → boundary_round b x ≡ x
  unfolding set_boundary
  other_boundary b x h = ground arith

  module _ (idle : (gs : List Grant) → any names gs ≡ false → clean gs ≡ gs) where
    own_role : (r : Role) → role_round r r ≡ clean_role clean r
    unfolding set_role
    own_role r = ground (arith, ==_refl r.id, idle r.grant_list)

    own_boundary : (b : Boundary) → boundary_round b b ≡ clean_boundary clean b
    unfolding set_boundary
    own_boundary b = elim (Option-cases b.ceiling_list) [
      | inl e ↦ ground (arith, ==_refl b.id, idle b.denied_list)
      | inr (gs, e) ↦ ground (arith, ==_refl b.id, idle b.denied_list, idle gs)
    ]

    -- Where no id stands twice in a table, and the cleaning leaves a list that names nothing as it
    -- is, `remove` cleans every list of every role and boundary.
    pub remove-cleans :
        (s : Store)
        → distinct (map (λ r. r.id) s.roles) ≡ true
        → distinct (map (λ b. b.id) s.boundaries) ≡ true
        → let after = (remove names clean s).0 in
          (after.roles ≡ map (clean_role clean) s.roles)
          × (after.boundaries ≡ map (clean_boundary clean) s.boundaries)
    unfolding remove remove_loops
    remove-cleans s h k =
        let (roles, same) = roles-loop s.roles (s, []) in
        let (boundaries, same') =
          boundaries-loop (foldl (remove_role names clean) (s, []) s.roles).0.boundaries
            (foldl (remove_role names clean) (s, []) s.roles) in
        (
          same'
              ∙ roles
              ∙ foldl_rows (λ r. r.id) role_round keeps_role other_role s.roles h
              ∙ map_congr _ _ s.roles (λ r m. own_role r),
          boundaries
              ∙ ap (λ t. foldl (λ t b. map (boundary_round b) t) t t) same
              ∙ foldl_rows (λ b. b.id) boundary_round keeps_boundary other_boundary s.boundaries k
              ∙ map_congr _ _ s.boundaries (λ b m. own_boundary b),
        )
