-- ===== src/Checker/AuthChecker.antt =====
-- `AuthChecker` of src/provablyfine/api/grant.py.
use pf.Base.{Bool, Option, none, some, List, ℕ, String, ◌==◌, string_eq, if◌then◌else◌}
use pf.Grant.{Boundary, Role, AuthGrant, as_auth}
use pf.Grant.Permission.{AuthUpdatePermission}
use pf.Checker.{Checker, can}
use pf.Checker.ById.{matches_id, may_update}

unfoldable pub init : List Boundary → List Role → Option ℕ → Checker AuthGrant
unfolding matches_id
init boundaries roles auth_id = record {
  boundaries = boundaries;
  roles = roles;
  filter = λ g. matches_id g.filter auth_id;
  cls = as_auth;
}

unfoldable pub can_create : Checker AuthGrant → Bool
can_create c = can c (λ g. g.permission.create)

unfoldable pub can_read : Checker AuthGrant → Bool
can_read c = can c (λ g. g.permission.read)

unfoldable pub can_delete : Checker AuthGrant → Bool
can_delete c = can c (λ g. g.permission.delete)

-- `getattr` at a field that the assertion accepts.
unfoldable pub update_field : String → Option (AuthUpdatePermission → Bool)
update_field field =
    if field == "name"
    then some (λ u. u.name)
    else if field == "description"
    then some (λ u. u.description)
    else if field == "is_enabled"
    then some (λ u. u.is_enabled)
    else if field == "config"
    then some (λ u. u.config)
    else none

-- `none` where the assertion on `field` fails.
unfoldable pub can_update : Checker AuthGrant → String → Option Bool
unfolding update_field
can_update c field = elim (update_field field) [
  | none ↦ none
  | some get ↦ some (can c (λ g. may_update g.permission.update get))
]
