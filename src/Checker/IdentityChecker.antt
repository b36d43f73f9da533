-- ===== src/Checker/IdentityChecker.antt =====
-- `IdentityChecker` and `TripletGrant` matching of src/provablyfine/api/grant.py.
use pf.Base.{
  ℕ, Bool, true, false, not, ◌&&◌, Option, none, some, List, [], ◌∷◌, String, ◌==◌, option_eq,
  nat_eq, string_eq, contains, is_some, all, if◌then◌else◌,
}
use pf.Grant.{Boundary, Role, TripletFilter, IdentityGrant, as_identity}
use pf.Grant.Permission.{IdentityCreatePermission, IdentityUpdatePermission}
use pf.Checker.{Checker, can}
use pf.Checker.ById.{may_update}

-- `len(xs) == 0`
abbrev pub is_empty {ℓ} : {A : Type ℓ} → List A → Bool
is_empty [] = true
is_empty (_ ∷ _) = false

-- `all(x in ys for x in xs)`
abbrev pub all_in : List ℕ → List ℕ → Bool
all_in xs ys = all (λ x. contains ys x) xs

-- The tests of `cmp` on the tag list: a filter that names tags wants every one of them, and an empty
-- list of tags matches nothing.
unfoldable pub matches_tags : Option (List ℕ) → Option (List ℕ) → Bool
matches_tags none target = true
matches_tags (some wanted) none = false
matches_tags (some wanted) (some tags) =
    if is_empty wanted then false else if not (all_in wanted tags) then false else true

-- The tests of `cmp` on the boundary list, where an empty list matches everything.
unfoldable pub matches_boundaries : Option (List ℕ) → Option (List ℕ) → Bool
matches_boundaries none target = true
matches_boundaries (some wanted) none = false
matches_boundaries (some wanted) (some boundaries) =
    if not (all_in wanted boundaries) then false else true

unfoldable pub matches_target : Option ℕ → Option (List ℕ) → Option (List ℕ) → TripletFilter → Bool
unfolding matches_tags matches_boundaries
matches_target identity_id tag_id_list boundary_id_list f =
    if is_some f.id && not (f.id == identity_id)
    then false
    else if not (matches_tags f.tag_id_list tag_id_list)
    then false
    else if not (matches_boundaries f.boundary_id_list boundary_id_list)
    then false
    else true

-- `x is None or a in x`
abbrev allows {ℓ} : {A : Type ℓ} → Option (List A) → (List A → Bool) → Bool
allows none test = true
allows (some xs) test = test xs

unfoldable pub init :
    List Boundary → List Role → Option ℕ → Option (List ℕ) → Option (List ℕ) → Checker IdentityGrant
unfolding matches_target
init boundaries roles identity_id tag_id_list boundary_id_list = record {
  boundaries = boundaries;
  roles = roles;
  filter = λ g. matches_target identity_id tag_id_list boundary_id_list g.filter;
  cls = as_identity;
}

-- `check` of `can_create`: no tag beyond the allowed ones, no required boundary left out.
unfoldable pub check_create : List ℕ → List ℕ → Option IdentityCreatePermission → Bool
check_create tags boundaries none = true
check_create tags boundaries (some create) =
    if not create.allowed
    then false
    else if not (allows create.allowed_tag_id_list (λ allowed. all_in tags allowed))
    then false
    else if not (allows create.required_boundary_id_list (λ required. all_in required boundaries))
    then false
    else true

unfoldable pub can_create : Checker IdentityGrant → List ℕ → List ℕ → Bool
unfolding check_create
can_create c tags boundaries = can c (λ g. check_create tags boundaries g.permission.create)

unfoldable pub can_read : Checker IdentityGrant → Bool
can_read c = can c (λ g. g.permission.read)

unfoldable pub update_field : String → Option (IdentityUpdatePermission → Bool)
update_field field =
    if field == "name"
    then some (λ u. u.name)
    else if field == "unix_username"
    then some (λ u. u.unix_username)
    else none

-- `none` where the assertion on `field` fails.
unfoldable pub can_update : Checker IdentityGrant → String → Option Bool
unfolding update_field
can_update c field = elim (update_field field) [
  | none ↦ none
  | some get ↦ some (can c (λ g. may_update g.permission.update get))
]

unfoldable pub can_delete : Checker IdentityGrant → Bool
can_delete c = can c (λ g. g.permission.delete)

unfoldable pub can_add_tag : Checker IdentityGrant → ℕ → Bool
can_add_tag c tag_id = can c (λ g. allows g.permission.add_tag_id_list (λ ids. contains ids tag_id))

unfoldable pub can_del_tag : Checker IdentityGrant → ℕ → Bool
can_del_tag c tag_id = can c (λ g. allows g.permission.del_tag_id_list (λ ids. contains ids tag_id))

unfoldable pub can_invite : Checker IdentityGrant → String → Bool
can_invite c delivery =
    can c (λ g. allows g.permission.invite_list (λ deliveries. contains deliveries delivery))
