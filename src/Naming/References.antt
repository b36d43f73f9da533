-- ===== src/Naming/References.antt =====
-- `referenced_ids` of src/provablyfine/api/model/grant.py. A set of ids is a list, in which an id
-- may stand more than once.
pub mod Laws
use mathlib.Core.List.{foldl}
use pf.Base.{
  ℕ, Bool, true, false, ◌||◌, Option, none, some, List, [], ◌∷◌, ◌++◌, String, string_eq, contains,
  or_empty, if◌then◌else◌,
}
use pf.Grant.{Grant, TripletFilter}
use pf.Grant.Permission.{IdentityPermission, IdentityCreatePermission, SshPermission}

pub record RefIds : Type 0 where
  pub tag : List ℕ
  pub identity : List ℕ
  pub boundary : List ℕ
  pub role : List ℕ
  pub bastion : List ℕ
  pub auth : List ℕ
  pub tenant : List ℕ
  pub uses_self : Bool

abbrev pub no_refs : RefIds
no_refs = record {
  tag = [];
  identity = [];
  boundary = [];
  role = [];
  bastion = [];
  auth = [];
  tenant = [];
  uses_self = false;
}

-- `_add`
add : List ℕ → Option ℕ → List ℕ
add ids none = ids
add ids (some id) = ids ++ (id ∷ [])

-- `_triplet`
triplet : RefIds → TripletFilter → RefIds
triplet refs f = record refs {
  identity = add refs.identity f.id;
  tag = refs.tag ++ or_empty f.tag_id_list;
  boundary = refs.boundary ++ or_empty f.boundary_id_list;
}

create_refs : RefIds → Option IdentityCreatePermission → RefIds
create_refs refs none = refs
create_refs refs (some create) = record refs {
  tag = refs.tag ++ or_empty create.allowed_tag_id_list;
  boundary = refs.boundary ++ or_empty create.required_boundary_id_list;
}

identity_refs : RefIds → IdentityPermission → RefIds
identity_refs refs p =
    create_refs
      (record refs { tag = (refs.tag ++ or_empty p.add_tag_id_list) ++ or_empty p.del_tag_id_list })
      p.create

-- `g.permission.username_list is not None and "{self}" in g.permission.username_list`
names_self : SshPermission → Bool
names_self p = elim p.username_list [ none ↦ false | some entries ↦ contains entries "{self}" ]

-- The body of the loop.
pub add_grant : RefIds → Grant → RefIds
add_grant refs (Grant.tag g) = record refs { tag = add refs.tag g.filter.id }
add_grant refs (Grant.role g) = record refs { role = add refs.role g.filter.id }
add_grant refs (Grant.boundary g) = record refs { boundary = add refs.boundary g.filter.id }
add_grant refs (Grant.bastion g) = record refs { bastion = add refs.bastion g.filter.id }
add_grant refs (Grant.auth g) = record refs { auth = add refs.auth g.filter.id }
add_grant refs (Grant.tenant g) = record refs { tenant = add refs.tenant g.filter.id }
add_grant refs (Grant.audit_log g) = refs
add_grant refs (Grant.live g) = record refs { tag = refs.tag ++ or_empty g.filter.tag_id_list }
add_grant refs (Grant.identity g) = identity_refs (triplet refs g.filter) g.permission
add_grant refs (Grant.ssh g) =
    let refs' = triplet refs g.filter in
    if names_self g.permission then record refs' { uses_self = true } else refs'

unfoldable pub referenced_ids : List Grant → RefIds
unfolding add_grant identity_refs create_refs triplet add names_self
referenced_ids grant_list = foldl add_grant no_refs grant_list
