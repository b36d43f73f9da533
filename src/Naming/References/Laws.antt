-- ===== src/Naming/References/Laws.antt =====
-- `referenced_ids` agrees with the tests that the cleanup of grants uses.
use mathlib.Core.List.{foldl}
use pf.Base.{
  ℕ, ◌≡◌, ◌||◌, Option, none, some, List, [], ◌∷◌, ◌++◌, ◌==◌, nat_eq, option_eq, contains,
  contains-append, or_empty, any, arith, Option-cases, inl, inr,
}
use pf.Grant.{Grant, IdentityGrant}
use pf.Naming.References.{
  RefIds, no_refs, add, triplet, create_refs, identity_refs, add_grant, referenced_ids,
}
use pf.Naming.Names.{
  lists, names_identity, names_bastion, filter_names, permission_names, tag_object_names,
  references_tag, names_tag,
}

module _ (x : ℕ) where
  contains-add :
      (ids : List ℕ) (o : Option ℕ) → contains (add ids o) x ≡ (contains ids x || (o == some x))
  unfolding add option_eq
  contains-add ids none = ground arith
  contains-add ids (some id) = ground (arith, contains-append x ids (id ∷ []))

  contains-or_empty :
      (ids : List ℕ) (o : Option (List ℕ))
      → contains (ids ++ or_empty o) x ≡ (contains ids x || lists o x)
  contains-or_empty ids o = elim (Option-cases o) [
    | inl e ↦ ground (arith, contains-append x ids [])
    | inr (l, e) ↦ ground (arith, contains-append x ids l)
  ]

  identity-add_grant :
      (refs : RefIds) (g : Grant)
      → contains (add_grant refs g).identity x ≡ (contains refs.identity x || names_identity g x)
  unfolding add_grant identity_refs create_refs triplet names_identity
  identity-add_grant refs (Grant.ssh g) = ground (arith, contains-add refs.identity g.filter.id)
  identity-add_grant refs (Grant.identity g) =
      ground (arith, contains-add refs.identity g.filter.id)
  identity-add_grant refs _ = ground arith

  bastion-add_grant :
      (refs : RefIds) (g : Grant)
      → contains (add_grant refs g).bastion x ≡ (contains refs.bastion x || names_bastion g x)
  unfolding add_grant identity_refs create_refs triplet names_bastion
  bastion-add_grant refs (Grant.bastion g) = ground (arith, contains-add refs.bastion g.filter.id)
  bastion-add_grant refs _ = ground arith

  tag-add_grant :
      (refs : RefIds) (g : Grant)
      → contains (add_grant refs g).tag x ≡ (contains refs.tag x || names_tag g x)
  unfolding add_grant identity_refs create_refs triplet names_tag references_tag filter_names
      permission_names tag_object_names
  tag-add_grant refs (Grant.tag g) = ground (arith, contains-add refs.tag g.filter.id)
  tag-add_grant refs (Grant.live g) =
      ground (arith, contains-or_empty refs.tag g.filter.tag_id_list)
  tag-add_grant refs (Grant.ssh g) = ground (arith, contains-or_empty refs.tag g.filter.tag_id_list)
  tag-add_grant refs (Grant.identity g) = elim (Option-cases g.permission.create) [
    | inl e ↦ ground (arith, add_and_del g)
    | inr (create, e) ↦ ground (
      arith,
      add_and_del g,
      contains-or_empty
          (((refs.tag ++ or_empty g.filter.tag_id_list) ++ or_empty g.permission.add_tag_id_list)
            ++ or_empty g.permission.del_tag_id_list)
          create.allowed_tag_id_list,
    )
  ]
    where
      add_and_del :
          (g : IdentityGrant)
          → contains
              (((refs.tag ++ or_empty g.filter.tag_id_list)
                  ++ or_empty g.permission.add_tag_id_list)
                ++ or_empty g.permission.del_tag_id_list)
              x
            ≡ (((contains refs.tag x || lists g.filter.tag_id_list x)
                  || lists g.permission.add_tag_id_list x)
                || lists g.permission.del_tag_id_list x)
      add_and_del g = ground (
        arith,
        contains-or_empty refs.tag g.filter.tag_id_list,
        contains-or_empty (refs.tag ++ or_empty g.filter.tag_id_list) g.permission.add_tag_id_list,
        contains-or_empty
            ((refs.tag ++ or_empty g.filter.tag_id_list) ++ or_empty g.permission.add_tag_id_list)
            g.permission.del_tag_id_list,
      )
  tag-add_grant refs _ = ground arith

  identity-foldl :
      (gs : List Grant) (refs : RefIds)
      → contains (foldl add_grant refs gs).identity x
        ≡ (contains refs.identity x || any (λ g. names_identity g x) gs)
  identity-foldl [] refs = ground arith
  identity-foldl (g ∷ gs) refs =
      ground (arith, identity-foldl gs (add_grant refs g), identity-add_grant refs g)

  bastion-foldl :
      (gs : List Grant) (refs : RefIds)
      → contains (foldl add_grant refs gs).bastion x
        ≡ (contains refs.bastion x || any (λ g. names_bastion g x) gs)
  bastion-foldl [] refs = ground arith
  bastion-foldl (g ∷ gs) refs =
      ground (arith, bastion-foldl gs (add_grant refs g), bastion-add_grant refs g)

  tag-foldl :
      (gs : List Grant) (refs : RefIds)
      → contains (foldl add_grant refs gs).tag x
        ≡ (contains refs.tag x || any (λ g. names_tag g x) gs)
  tag-foldl [] refs = ground arith
  tag-foldl (g ∷ gs) refs = ground (arith, tag-foldl gs (add_grant refs g), tag-add_grant refs g)

  -- The ids that an audit entry records for a list of grants are exactly those that the cleanup
  -- after a deletion looks for: of identities, of bastions and of tags.
  pub referenced_ids-names :
      (gs : List Grant)
      → (contains (referenced_ids gs).identity x ≡ any (λ g. names_identity g x) gs)
        × (contains (referenced_ids gs).bastion x ≡ any (λ g. names_bastion g x) gs)
        × (contains (referenced_ids gs).tag x ≡ any (λ g. names_tag g x) gs)
  unfolding referenced_ids
  referenced_ids-names gs =
      (identity-foldl gs no_refs, bastion-foldl gs no_refs, tag-foldl gs no_refs)
