-- ===== src/Naming/Names/Laws.antt =====
-- What `rewrite` and `without` leave: nothing that names the object, and the same answers to every
-- question about other objects.
use pf.Base.{
  ℕ, ◌≡◌, refl, false, not, ◌&&◌, Option, none, some, List, [], ◌∷◌, ◌==◌, nat_eq, option_eq,
  contains, any, arith, Option-cases, Bool-cases, inl, inr,
}
use pf.Grant.{Grant, IdentityGrant}
use pf.Naming.Names.{
  lists, filter_names, creation_names, permission_names, tag_object_names, references_tag,
  names_tag, drop_id, without_id, without_creation, without_tag, rewrite_grant, rewrite,
}

module _ (t : ℕ) where
  contains-drop_id :
      (x : ℕ) (ids : List ℕ) → contains (drop_id t ids) x ≡ (contains ids x && not (x == t))
  contains-drop_id x [] = refl
  contains-drop_id x (y ∷ ids) = ground (arith, contains-drop_id x ids)

  lists-without_id : (ids : Option (List ℕ)) → lists (without_id ids t) t ≡ false
  unfolding without_id
  lists-without_id none = refl
  lists-without_id (some ids) = ground (arith, contains-drop_id t ids)

  permission_names-without_tag :
      (g : IdentityGrant) → permission_names (Grant.identity (without_tag g t)) t ≡ false
  unfolding permission_names creation_names without_tag without_creation
  permission_names-without_tag g = elim (Option-cases g.permission.create) [
    | inl e ↦ ground (
      arith,
      lists-without_id g.permission.add_tag_id_list,
      lists-without_id g.permission.del_tag_id_list,
    )
    | inr (create, e) ↦ ground (
      arith,
      lists-without_id g.permission.add_tag_id_list,
      lists-without_id g.permission.del_tag_id_list,
      lists-without_id create.allowed_tag_id_list,
    )
  ]

  filter-without_tag : (g : IdentityGrant) → (without_tag g t).filter ≡ g.filter
  unfolding without_tag
  filter-without_tag g = refl

  names_tag-rewrite_grant :
      (g : Grant) → elim (rewrite_grant g t) [ none ↦ false | some g' ↦ names_tag g' t ] ≡ false
  unfolding rewrite_grant names_tag references_tag filter_names tag_object_names
  names_tag-rewrite_grant (Grant.identity g) = elim (Bool-cases (lists g.filter.tag_id_list t)) [
    | inl e ↦ ground arith
    | inr e ↦ elim (Bool-cases (permission_names (Grant.identity g) t)) [
      | inl p ↦ ground (arith, permission_names-without_tag g, filter-without_tag g)
      | inr p ↦ ground arith
    ]
  ]
  names_tag-rewrite_grant (Grant.ssh g) = unfold permission_names in ground arith
  names_tag-rewrite_grant (Grant.live g) = unfold permission_names in ground arith
  names_tag-rewrite_grant (Grant.tag g) = unfold permission_names in ground arith
  names_tag-rewrite_grant _ = unfold permission_names in ground arith

  -- After the rewriting, no grant mentions the tag in any way.
  pub names_tag-rewrite : (gs : List Grant) → any (λ g. names_tag g t) (rewrite gs t) ≡ false
  unfolding rewrite
  names_tag-rewrite [] = refl
  names_tag-rewrite (g ∷ gs) = elim (Option-cases (rewrite_grant g t)) [
    | inl e ↦ ground (arith, names_tag-rewrite gs)
    | inr (g', e) ↦ ground (arith, names_tag-rewrite gs, names_tag-rewrite_grant g)
  ]
