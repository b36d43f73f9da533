-- ===== src/Checker/RoleChecker.antt =====
-- `RoleChecker` of src/provablyfine/api/grant.py.
use pf.Base.{Bool, Option, none, some, List, ℕ, String, ◌==◌, string_eq, if◌then◌else◌}
use pf.Grant.{Boundary, Role, RoleGrant, as_role}
use pf.Grant.Permission.{RoleUpdatePermission}
use pf.Checker.{Checker, can}
use pf.Checker.ById.{matches_id, may_update}

unfoldable pub init : List Boundary → List Role → Option ℕ → Checker RoleGrant
unfolding matches_id
init boundaries roles role_id = record {
  boundaries = boundaries;
  roles = roles;
  filter = λ g. matches_id g.filter role_id;
  cls = as_role;
}

unfoldable pub can_create : Checker RoleGrant → Bool
can_create c = can c (λ g. g.permission.create)

unfoldable pub can_read : Checker RoleGrant → Bool
can_read c = can c (λ g. g.permission.read)

unfoldable pub can_delete : Checker RoleGrant → Bool
can_delete c = can c (λ g. g.permission.delete)

-- `getattr` at a field that the assertion accepts.
unfoldable pub update_field : String → Option (RoleUpdatePermission → Bool)
update_field field =
    if field == "name"
    then some (λ u. u.name)
    else if field == "description"
    then some (λ u. u.description)
    else if field == "member_list"
    then some (λ u. u.member_list)
    else if field == "grant_list"
    then some (λ u. u.grant_list)
    else none

-- `none` where the assertion on `field` fails.
unfoldable pub can_update : Checker RoleGrant → String → Option Bool
unfolding update_field
can_update c field = elim (update_field field) [
  | none ↦ none
  | some get ↦ some (can c (λ g. may_update g.permission.update get))
]
