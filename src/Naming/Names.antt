-- ===== src/Naming/Names.antt =====
-- Which grants name an identity, a bastion or a tag, and the lists without those grants:
-- `_names`, `_without` and `_rewrite` of src/provablyfine/api/model/identity_grants.py,
-- bastion_grants.py and tag_grants.py.
pub mod Laws
use pf.Base.{
  ℕ, Bool, true, false, not, ◌&&◌, ◌||◌, Option, none, some, List, [], ◌∷◌, ◌==◌, nat_eq, option_eq,
  contains, filter, filter_map, or_empty, if◌then◌else◌,
}
use pf.Grant.{Grant, TripletFilter, IdentityGrant}
use pf.Grant.Permission.{IdentityPermission, IdentityCreatePermission}

-- identity_grants.py

unfoldable pub names_identity : Grant → ℕ → Bool
names_identity (Grant.identity g) identity_id = g.filter.id == some identity_id
names_identity (Grant.ssh g) identity_id = g.filter.id == some identity_id
names_identity _ identity_id = false

unfoldable pub without_identity : List Grant → ℕ → List Grant
without_identity grants identity_id = filter (λ g. not (names_identity g identity_id)) grants

-- bastion_grants.py

unfoldable pub names_bastion : Grant → ℕ → Bool
names_bastion (Grant.bastion g) bastion_id = g.filter.id == some bastion_id
names_bastion _ bastion_id = false

unfoldable pub without_bastion : List Grant → ℕ → List Grant
without_bastion grants bastion_id = filter (λ g. not (names_bastion g bastion_id)) grants

-- tag_grants.py

-- `xs is not None and tag_id in xs`
abbrev pub lists : Option (List ℕ) → ℕ → Bool
lists none tag_id = false
lists (some ids) tag_id = contains ids tag_id

unfoldable pub filter_names : Grant → ℕ → Bool
filter_names (Grant.identity g) tag_id = lists g.filter.tag_id_list tag_id
filter_names (Grant.ssh g) tag_id = lists g.filter.tag_id_list tag_id
filter_names (Grant.live g) tag_id = lists g.filter.tag_id_list tag_id
filter_names _ tag_id = false

-- `p.create is not None and p.create.allowed_tag_id_list is not None and tag_id in …`
creation_names : Option IdentityCreatePermission → ℕ → Bool
creation_names none tag_id = false
creation_names (some create) tag_id = lists create.allowed_tag_id_list tag_id

unfoldable pub permission_names : Grant → ℕ → Bool
unfolding creation_names
permission_names (Grant.identity g) tag_id =
    if lists g.permission.add_tag_id_list tag_id
    then true
    else if lists g.permission.del_tag_id_list tag_id
    then true
    else creation_names g.permission.create tag_id
permission_names _ tag_id = false

unfoldable pub tag_object_names : Grant → ℕ → Bool
tag_object_names (Grant.tag g) tag_id = g.filter.id == some tag_id
tag_object_names _ tag_id = false

unfoldable pub references_tag : Grant → ℕ → Bool
references_tag g tag_id = filter_names g tag_id || permission_names g tag_id

unfoldable pub names_tag : Grant → ℕ → Bool
unfolding references_tag
names_tag g tag_id = references_tag g tag_id || tag_object_names g tag_id

-- `[t for t in xs if t != tag_id]`
abbrev drop_id : ℕ → List ℕ → List ℕ
drop_id tag_id = filter (λ t. not (t == tag_id))

-- A list that lists the tag is replaced, any other is kept.
without_id : Option (List ℕ) → ℕ → Option (List ℕ)
without_id none tag_id = none
without_id (some ids) tag_id = if contains ids tag_id then some (drop_id tag_id ids) else some ids

without_creation : Option IdentityCreatePermission → ℕ → Option IdentityCreatePermission
without_creation none tag_id = none
without_creation (some create) tag_id =
    some (record create { allowed_tag_id_list = without_id create.allowed_tag_id_list tag_id })

unfoldable pub without_tag : IdentityGrant → ℕ → IdentityGrant
unfolding without_id without_creation
without_tag g tag_id = record g {
  permission = record (g.permission) {
    create = without_creation g.permission.create tag_id;
    add_tag_id_list = without_id g.permission.add_tag_id_list tag_id;
    del_tag_id_list = without_id g.permission.del_tag_id_list tag_id;
  };
}

-- One round of the loop of `_rewrite`: `none` for `continue`. The assertion in it holds, since only
-- an identity grant is named by its permission.
unfoldable pub rewrite_grant : Grant → ℕ → Option Grant
rewrite_grant g tag_id =
    if filter_names g tag_id || tag_object_names g tag_id
    then none
    else if permission_names g tag_id
    then elim g [
      | Grant.identity i ↦ some (Grant.identity (without_tag i tag_id))
      | other ↦ some other
    ]
    else some g

unfoldable pub rewrite : List Grant → ℕ → List Grant
rewrite grants tag_id = filter_map (λ g. rewrite_grant g tag_id) grants
