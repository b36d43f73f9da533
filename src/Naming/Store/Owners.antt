-- ===== src/Naming/Store/Owners.antt =====
-- The owners that `remove` returns, against those that `find` lists.
use mathlib.Core.List.{foldl}
use pf.Base.{
  ◌≡◌, ap, ◌∙◌, Bool, true, ◌||◌, List, [], ◌∷◌, ◌++◌, nat_eq, string_eq, any, or_empty, filter_map,
  arith, Bool-cases, inl, inr, any-append, exists_of_any, any_of_mem,
}
use pf.Grant.{Grant, Role, Boundary}
use pf.Naming.Store.{
  Store, Owner, role, boundary, same_owner, add_key, from_keys, role_owner, boundary_owner, find,
  remove_role, remove_boundary, remove_loops, remove,
}
use pf.Naming.Store.Laws.{boundaries-remove_roles}

same_owner-eq : (a b : Owner) → same_owner a b ≡ true → a ≡ b
same_owner-eq (role i n) (role j m) h = ground arith
same_owner-eq (boundary i n) (boundary j m) h = ground arith
same_owner-eq (role i n) (boundary j m) h = cc
same_owner-eq (boundary i n) (role j m) h = cc

module _ (p : Owner → Bool) where
  any-add_key : (owners : List Owner) (o : Owner) → any p (add_key owners o) ≡ (any p owners || p o)
  unfolding add_key
  any-add_key owners o = elim (Bool-cases (any (same_owner o) owners)) [
    | inl e ↦
        let (y, m, same) = exists_of_any (same_owner o) owners e in
        ground (arith, ap p (same_owner-eq o y same), any_of_mem p m)
    | inr e ↦ ground (arith, any-append p owners (o ∷ []))
  ]

  any-add_keys :
      (owners xs : List Owner) → any p (foldl add_key owners xs) ≡ (any p owners || any p xs)
  any-add_keys owners [] = ground arith
  any-add_keys owners (x ∷ xs) =
      ground (arith, any-add_keys (add_key owners x) xs, any-add_key owners x)

  any-from_keys : (xs : List Owner) → any p (from_keys xs) ≡ any p xs
  unfolding from_keys
  any-from_keys xs = any-add_keys [] xs

  module _ (names : Grant → Bool) (clean : List Grant → List Grant) where
    any-remove_roles :
        (rs : List Role) (q : Store × List Owner)
        → any p (foldl (remove_role names clean) q rs).1
          ≡ (any p q.1 || any p (filter_map (role_owner names) rs))
    unfolding remove_role role_owner
    any-remove_roles [] q = ground arith
    any-remove_roles (r ∷ rs) (s, c) = elim (Bool-cases (any names r.grant_list)) [
      | inl e ↦ ground (
        arith,
        any-remove_roles rs (remove_role names clean (s, c) r),
        any-append p c (role r.id r.name ∷ []),
      )
      | inr e ↦ ground (arith, any-remove_roles rs (remove_role names clean (s, c) r))
    ]

    any-remove_boundary :
        (b : Boundary) (q : Store × List Owner)
        → any p (remove_boundary names clean q b).1
          ≡ (any p q.1 || any p (filter_map (boundary_owner names) (b ∷ [])))
    unfolding remove_boundary boundary_owner
    any-remove_boundary b (s, c) =
        let owner : List Owner = boundary b.id b.name ∷ [] in
        elim (Bool-cases (any names b.denied_list)) [
          | inl e ↦ ground (
            arith,
            any-append names b.denied_list (or_empty b.ceiling_list),
            any-append p c owner,
            any-append p (c ++ owner) owner,
            any-append p (c ++ owner) [],
          )
          | inr e ↦ ground (
            arith,
            any-append names b.denied_list (or_empty b.ceiling_list),
            any-append p c [],
            any-append p (c ++ []) owner,
          )
        ]

    any-remove_boundaries :
        (bs : List Boundary) (q : Store × List Owner)
        → any p (foldl (remove_boundary names clean) q bs).1
          ≡ (any p q.1 || any p (filter_map (boundary_owner names) bs))
    any-remove_boundaries [] q = ground arith
    any-remove_boundaries (b ∷ bs) q =
        ground (
          arith,
          any-remove_boundaries bs (remove_boundary names clean q b),
          any-remove_boundary b q,
        )

    -- A test holds of some owner that `remove` returns exactly when it does of some owner that `find`
    -- lists.
    pub any-remove : (s : Store) → any p (remove names clean s).1 ≡ any p (find names s)
    unfolding remove remove_loops find
    any-remove s =
        let after = foldl (remove_role names clean) (s, []) s.roles in
        any-from_keys _
        ∙ any-remove_boundaries after.0.boundaries after
        ∙ ground (
          arith,
          boundaries-remove_roles names clean s,
          any-remove_roles s.roles (s, []),
          any-append p (filter_map (role_owner names) s.roles)
              (filter_map (boundary_owner names) s.boundaries),
        )
