-- ===== src/Naming/Remove/Laws.antt =====
-- After `remove`: nothing is left to find, the owners are those that were found, and SSH decisions
-- about others are as before.
use mathlib.Core.Path.{subst}
use pf.Base.{
  ℕ, ◌≡◌, refl, sym, Bool, false, not, some, List, [], ◌∷◌, ◌==◌, nat_eq, option_eq, any, contains,
  filter, arith,
}
use pf.Grant.{Grant, Role, Boundary}
use pf.Naming.Names.{
  names_identity, without_identity, names_bastion, without_bastion, references_tag, names_tag,
  rewrite, rewrite_grant,
}
use pf.Naming.Names.Laws.{names_tag-rewrite}
use pf.Naming.Unchanged.{DecidesAlike, rewrite-DecidesAlike, without_identity-DecidesAlike}
use pf.Naming.Store.{Store, Owner, same_owner}
use pf.Naming.Store.Laws.{remove-cleans}
use pf.Naming.Store.Owners.{any-remove}
use pf.Naming.Store.Found.{IsKeyed, find-remove}
use pf.Naming.Remove.{
  find_identity, remove_identity, find_bastion, remove_bastion, find_tag, remove_tag,
}

module _ (names : Grant → Bool) where
  without_idle : (gs : List Grant) → any names gs ≡ false → filter (λ g. not (names g)) gs ≡ gs
  without_idle [] h = refl
  without_idle (g ∷ gs) h = ground (arith, without_idle gs)

  names-without : (gs : List Grant) → any names (filter (λ g. not (names g)) gs) ≡ false
  names-without [] = refl
  names-without (g ∷ gs) = ground (arith, names-without gs)

rewrite_grant_idle : (g : Grant) (t : ℕ) → names_tag g t ≡ false → rewrite_grant g t ≡ some g
unfolding rewrite_grant names_tag references_tag
rewrite_grant_idle g t h = ground arith

rewrite_idle : (t : ℕ) (gs : List Grant) → any (λ g. names_tag g t) gs ≡ false → rewrite gs t ≡ gs
unfolding rewrite
rewrite_idle t [] h = refl
rewrite_idle t (g ∷ gs) h = ground (arith, rewrite_idle t gs, rewrite_grant_idle g t)

references-names_tag :
    (t : ℕ) (gs : List Grant)
    → any (λ g. names_tag g t) gs ≡ false
    → any (λ g. references_tag g t) gs ≡ false
unfolding names_tag
references-names_tag t [] h = refl
references-names_tag t (g ∷ gs) h = ground (arith, references-names_tag t gs)

references-rewrite :
    (t : ℕ) (gs : List Grant) → any (λ g. references_tag g t) (rewrite gs t) ≡ false
references-rewrite t gs = references-names_tag t (rewrite gs t) (names_tag-rewrite t gs)

-- After `remove` for an identity, a bastion or a tag, `find` for it lists nobody.
pub find-remove_nobody :
    (s : Store) (id : ℕ)
    → IsKeyed s
    → (find_identity (remove_identity s id).0 id ≡ [])
      × (find_bastion (remove_bastion s id).0 id ≡ [])
      × (find_tag (remove_tag s id).0 id ≡ [])
unfolding find_identity remove_identity find_bastion remove_bastion find_tag remove_tag
    without_identity without_bastion
find-remove_nobody s id k = (
  find-remove _ _ _ (names-without (λ g. names_identity g id))
      (without_idle (λ g. names_identity g id)) s k,
  find-remove _ _ _ (names-without (λ g. names_bastion g id))
      (without_idle (λ g. names_bastion g id)) s k,
  find-remove _ _ _ (references-rewrite id) (rewrite_idle id) s k,
)

-- `remove` for an identity or a bastion returns an owner exactly when `find` lists it before.
pub remove-owners :
    (s : Store) (id : ℕ) (o : Owner)
    → (any (same_owner o) (remove_identity s id).1 ≡ any (same_owner o) (find_identity s id))
      × (any (same_owner o) (remove_bastion s id).1 ≡ any (same_owner o) (find_bastion s id))
unfolding find_identity remove_identity find_bastion remove_bastion
remove-owners s id o = (any-remove (same_owner o) _ _ s, any-remove (same_owner o) _ _ s)

module _ (identity_id : ℕ) (tag_id_list boundary_id_list : List ℕ) where
  DecidesAlike-at :
      (bs : List Boundary) (rs : List Role) {bs' cs : List Boundary} {rs' qs : List Role}
      → cs ≡ bs'
      → qs ≡ rs'
      → DecidesAlike identity_id tag_id_list boundary_id_list bs rs bs' rs'
      → DecidesAlike identity_id tag_id_list boundary_id_list bs rs cs qs
  DecidesAlike-at bs rs {cs = cs} {rs' = rs'} e f alike =
      subst (λ x. DecidesAlike identity_id tag_id_list boundary_id_list bs rs cs x) (sym f)
        (subst (λ x. DecidesAlike identity_id tag_id_list boundary_id_list bs rs x rs') (sym e)
          alike)

  -- `remove` for a tag changes no SSH decision about a host without that tag.
  pub remove_tag-DecidesAlike :
      (s : Store) (t : ℕ)
      → IsKeyed s
      → contains tag_id_list t ≡ false
      → let after = (remove_tag s t).0 in
        DecidesAlike identity_id tag_id_list boundary_id_list s.boundaries s.roles after.boundaries
          after.roles
  unfolding remove_tag
  remove_tag-DecidesAlike s t k lacks =
      let (roles, boundaries) =
        remove-cleans (λ g. names_tag g t) (λ gs. rewrite gs t) (rewrite_idle t) s k.roles_keyed
          k.boundaries_keyed in
      DecidesAlike-at s.boundaries s.roles boundaries roles
        (rewrite-DecidesAlike identity_id tag_id_list boundary_id_list t lacks s.boundaries s.roles)

  -- `remove` for an identity changes no SSH decision about another one.
  pub remove_identity-DecidesAlike :
      (s : Store) (deleted : ℕ)
      → IsKeyed s
      → (identity_id == deleted) ≡ false
      → let after = (remove_identity s deleted).0 in
        DecidesAlike identity_id tag_id_list boundary_id_list s.boundaries s.roles after.boundaries
          after.roles
  unfolding remove_identity without_identity
  remove_identity-DecidesAlike s deleted k other =
      let (roles, boundaries) =
        remove-cleans (λ g. names_identity g deleted) (λ gs. without_identity gs deleted)
          (without_idle (λ g. names_identity g deleted)) s k.roles_keyed k.boundaries_keyed in
      DecidesAlike-at s.boundaries s.roles boundaries roles (
        without_identity-DecidesAlike identity_id tag_id_list boundary_id_list deleted other
          s.boundaries s.roles)
