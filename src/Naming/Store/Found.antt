-- ===== src/Naming/Store/Found.antt =====
-- What `find` lists after `remove`.
use pf.Base.{
  ◌≡◌, refl, Bool, true, false, List, [], ◌∷◌, map, any, filter_map, arith, distinct, Option-cases,
  inl, inr, any-append,
}
use pf.Grant.{Grant, Role, Boundary}
use pf.Naming.Unchanged.{clean_role, clean_boundary}
use pf.Naming.Store.{Store, role_owner, boundary_owner, find, remove}
use pf.Naming.Store.Laws.{remove-cleans}

-- A table with one row for each id.
pub record IsKeyed (s : Store) : Type 0 where
  pub roles_keyed : distinct (map (λ r. r.id) s.roles) ≡ true
  pub boundaries_keyed : distinct (map (λ b. b.id) s.boundaries) ≡ true

module _ (sought names : Grant → Bool) (clean : List Grant → List Grant)
    (clears : (gs : List Grant) → any sought (clean gs) ≡ false) where
  no_role_owner : (rs : List Role) → filter_map (role_owner sought) (map (clean_role clean) rs) ≡ []
  unfolding role_owner
  no_role_owner [] = refl
  no_role_owner (r ∷ rs) = ground (arith, no_role_owner rs, clears r.grant_list)

  no_boundary_owner :
      (bs : List Boundary) → filter_map (boundary_owner sought) (map (clean_boundary clean) bs) ≡ []
  unfolding boundary_owner
  no_boundary_owner [] = refl
  no_boundary_owner (b ∷ bs) = elim (Option-cases b.ceiling_list) [
    | inl e ↦ ground (
      arith,
      no_boundary_owner bs,
      clears b.denied_list,
      any-append sought (clean b.denied_list) [],
    )
    | inr (gs, e) ↦ ground (
      arith,
      no_boundary_owner bs,
      clears b.denied_list,
      clears gs,
      any-append sought (clean b.denied_list) (clean gs),
    )
  ]

  -- After `remove` with a cleaning that leaves nothing that is sought, `find` lists nobody.
  pub find-remove :
      (idle : (gs : List Grant) → any names gs ≡ false → clean gs ≡ gs) (s : Store)
      → IsKeyed s
      → find sought (remove names clean s).0 ≡ []
  unfolding find
  find-remove idle s k =
      let (roles, boundaries) = remove-cleans names clean idle s k.roles_keyed k.boundaries_keyed in
      rw (roles, boundaries, no_role_owner s.roles, no_boundary_owner s.boundaries)
