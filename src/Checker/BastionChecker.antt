-- ===== src/Checker/BastionChecker.antt =====
-- `BastionChecker` of src/provablyfine/api/grant.py.
use pf.Base.{Bool, Option, none, some, List, ℕ, String, ◌==◌, string_eq, if◌then◌else◌}
use pf.Grant.{Boundary, Role, BastionGrant, as_bastion}
use pf.Grant.Permission.{BastionUpdatePermission}
use pf.Checker.{Checker, can}
use pf.Checker.ById.{matches_id, may_update}

unfoldable pub init : List Boundary → List Role → Option ℕ → Checker BastionGrant
unfolding matches_id
init boundaries roles bastion_id = record {
  boundaries = boundaries;
  roles = roles;
  filter = λ g. matches_id g.filter bastion_id;
  cls = as_bastion;
}

unfoldable pub can_create : Checker BastionGrant → Bool
can_create c = can c (λ g. g.permission.create)

unfoldable pub can_read : Checker BastionGrant → Bool
can_read c = can c (λ g. g.permission.read)

unfoldable pub can_delete : Checker BastionGrant → Bool
can_delete c = can c (λ g. g.permission.delete)

-- `getattr` at a field that the assertion accepts.
unfoldable pub update_field : String → Option (BastionUpdatePermission → Bool)
update_field field =
    if field == "url"
    then some (λ u. u.url)
    else if field == "ssh_proxy_jump"
    then some (λ u. u.ssh_proxy_jump)
    else if field == "tag_list"
    then some (λ u. u.tag_list)
    else none

-- `none` where the assertion on `field` fails.
unfoldable pub can_update : Checker BastionGrant → String → Option Bool
unfolding update_field
can_update c field = elim (update_field field) [
  | none ↦ none
  | some get ↦ some (can c (λ g. may_update g.permission.update get))
]
