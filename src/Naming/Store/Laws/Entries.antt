-- ===== src/Naming/Store/Laws/Entries.antt =====
-- The entries that `remove` leaves in the audit log.
use mathlib.Core.List.{foldl, append_assoc, append-nil}
use mathlib.Core.Path.{subst}
use pf.Base.{
  ◌≡◌, refl, ap, ◌∙◌, sym, Bool, true, ◌||◌, some, List, [], ◌∷◌, ◌++◌, map, nat_eq, string_eq, any,
  or_empty, if◌then◌else◌, flat_map, arith, distinct, Bool-cases, inl, inr, Reads, Reads-step,
  Reads-refl, row_of,
}
use mathlib.Core.List.Memᴰ.{head}
use pf.Grant.{Grant, Role, Boundary}
use pf.Naming.Store.{
  Store, Owner, Entry, role_update_grant_list, boundary_update_denied_list,
  boundary_update_ceiling_list, entry_for, old_ceiling, update_role, remove_role, update_boundary,
  remove_boundary, remove_loops, remove,
}
use pf.Naming.Store.Laws.{
  role_round, keeps_role, other_role, roles_if, boundary_round, keeps_boundary, other_boundary,
  boundaries_if, boundaries-remove_roles,
}

module _ (names : Grant → Bool) (clean : List Grant → List Grant) where
  -- The entry for a role whose list changes: the new list and the old one.
  abbrev pub role_entries : Role → List Entry
  role_entries r =
      if any names r.grant_list
      then role_update_grant_list r.id (clean r.grant_list) (some r.grant_list) ∷ []
      else []

  -- The entries for the lists of a boundary that change.
  abbrev pub boundary_entries : Boundary → List Entry
  boundary_entries b =
      (if any names (or_empty b.ceiling_list)
        then boundary_update_ceiling_list b.id (some (clean (or_empty b.ceiling_list)))
            b.ceiling_list
          ∷ []
        else [])
      ++ (if any names b.denied_list
          then boundary_update_denied_list b.id (clean b.denied_list) (some b.denied_list) ∷ []
          else [])

  entries-remove_role :
      (r : Role) (p : Store × List Owner)
      → row_of (λ r. r.id) r.id p.0.roles ≡ some r
      → (remove_role names clean p r).0.entries ≡ p.0.entries ++ role_entries r
  unfolding remove_role update_role entry_for
  entries-remove_role r (s, c) h = elim (Bool-cases (any names r.grant_list)) [
    | inl e ↦ ground (arith, h, append-nil s.entries)
    | inr e ↦ ground (arith, append-nil s.entries)
  ]

  entries-remove_boundary :
      (b : Boundary) (p : Store × List Owner)
      → row_of (λ b. b.id) b.id p.0.boundaries ≡ some b
      → (remove_boundary names clean p b).0.entries ≡ p.0.entries ++ boundary_entries b
  unfolding remove_boundary update_boundary entry_for old_ceiling
  entries-remove_boundary b (s, c) h = elim (Bool-cases (any names b.denied_list)) [
    | inl e ↦ elim (Bool-cases (any names (or_empty b.ceiling_list))) [
      | inl f ↦ ground (
        arith,
        h,
        append-nil s.entries,
        append_assoc s.entries
            (boundary_update_ceiling_list b.id (some (clean (or_empty b.ceiling_list)))
                b.ceiling_list
              ∷ [])
            (boundary_update_denied_list b.id (clean b.denied_list) (some b.denied_list) ∷ []),
      )
      | inr f ↦ ground (arith, h, append-nil s.entries)
    ]
    | inr e ↦ elim (Bool-cases (any names (or_empty b.ceiling_list))) [
      | inl f ↦ ground (
        arith,
        h,
        append-nil s.entries,
        append-nil (
            s.entries
            ++ (boundary_update_ceiling_list b.id (some (clean (or_empty b.ceiling_list)))
                  b.ceiling_list
                ∷ [])),
      )
      | inr f ↦ ground (arith, append-nil s.entries)
    ]
  ]

  roles-remove_role :
      (r : Role) (p : Store × List Owner)
      → (remove_role names clean p r).0.roles ≡ map (role_round names clean r) p.0.roles
  unfolding remove_role update_role
  roles-remove_role r (s, c) = (roles_if (any names r.grant_list) s _ c _ _ refl refl).0

  boundaries-remove_boundary :
      (b : Boundary) (p : Store × List Owner)
      → (remove_boundary names clean p b).0.boundaries
        ≡ map (boundary_round names clean b) p.0.boundaries
  unfolding remove_boundary update_boundary
  boundaries-remove_boundary b (s, c) =
      (boundaries_if (any names b.denied_list || any names (or_empty b.ceiling_list)) s _ c _ _ refl
        refl).0

  roles-entries :
      (rs : List Role) (p : Store × List Owner)
      → distinct (map (λ r. r.id) rs) ≡ true
      → Reads (λ r. r.id) rs p.0.roles
      → (foldl (remove_role names clean) p rs).0.entries ≡ p.0.entries ++ flat_map role_entries rs
  roles-entries [] p h reads = sym (append-nil p.0.entries)
  roles-entries (r ∷ rs) p h reads =
      roles-entries rs (remove_role names clean p r) (ground arith) (
        subst (Reads (λ r. r.id) rs) (sym (roles-remove_role r p)) (
          Reads-step (λ r. r.id) (role_round names clean) (keeps_role names clean)
            (other_role names clean) r rs p.0.roles h reads))
      ∙ ap (λ es. es ++ flat_map role_entries rs) (entries-remove_role r p (reads r (head refl)))
      ∙ append_assoc p.0.entries (role_entries r) (flat_map role_entries rs)

  boundaries-entries :
      (bs : List Boundary) (p : Store × List Owner)
      → distinct (map (λ b. b.id) bs) ≡ true
      → Reads (λ b. b.id) bs p.0.boundaries
      → (foldl (remove_boundary names clean) p bs).0.entries
        ≡ p.0.entries ++ flat_map boundary_entries bs
  boundaries-entries [] p h reads = sym (append-nil p.0.entries)
  boundaries-entries (b ∷ bs) p h reads =
      boundaries-entries bs (remove_boundary names clean p b) (ground arith) (
        subst (Reads (λ b. b.id) bs) (sym (boundaries-remove_boundary b p)) (
          Reads-step (λ b. b.id) (boundary_round names clean) (keeps_boundary names clean)
            (other_boundary names clean) b bs p.0.boundaries h reads))
      ∙ ap (λ es. es ++ flat_map boundary_entries bs)
          (entries-remove_boundary b p (reads b (head refl)))
      ∙ append_assoc p.0.entries (boundary_entries b) (flat_map boundary_entries bs)

  -- Where no id stands twice in a table, `remove` adds to the log an entry for each list of grants
  -- that names the object, with the cleaned list and the list as it was, and no other entry.
  pub entries-remove :
      (s : Store)
      → distinct (map (λ r. r.id) s.roles) ≡ true
      → distinct (map (λ b. b.id) s.boundaries) ≡ true
      → (remove names clean s).0.entries
        ≡ s.entries ++ flat_map role_entries s.roles ++ flat_map boundary_entries s.boundaries
  unfolding remove remove_loops
  entries-remove s h k =
      let after : Store × List Owner = foldl (remove_role names clean) (s, []) s.roles in
      let same = boundaries-remove_roles names clean s in
      ap (λ bs. (foldl (remove_boundary names clean) after bs).0.entries) same
      ∙ boundaries-entries s.boundaries after k (
          subst (Reads (λ b. b.id) s.boundaries) (sym same) (Reads-refl (λ b. b.id) s.boundaries k))
      ∙ ap (λ es. es ++ flat_map boundary_entries s.boundaries)
          (roles-entries s.roles (s, []) h (Reads-refl (λ r. r.id) s.roles h))
