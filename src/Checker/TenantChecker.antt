-- ===== src/Checker/TenantChecker.antt =====
-- `TenantChecker` of src/provablyfine/api/grant.py.
use pf.Base.{Bool, Option, none, some, List, ℕ, String, ◌==◌, string_eq, if◌then◌else◌}
use pf.Grant.{Boundary, Role, TenantGrant, as_tenant}
use pf.Grant.Permission.{TenantUpdatePermission}
use pf.Checker.{Checker, can}
use pf.Checker.ById.{matches_id, may_update}

unfoldable pub init : List Boundary → List Role → Option ℕ → Checker TenantGrant
unfolding matches_id
init boundaries roles tenant_id = record {
  boundaries = boundaries;
  roles = roles;
  filter = λ g. matches_id g.filter tenant_id;
  cls = as_tenant;
}

unfoldable pub can_create : Checker TenantGrant → Bool
can_create c = can c (λ g. g.permission.create)

unfoldable pub can_read : Checker TenantGrant → Bool
can_read c = can c (λ g. g.permission.read)

unfoldable pub can_delete : Checker TenantGrant → Bool
can_delete c = can c (λ g. g.permission.delete)

-- `getattr` at a field that the assertion accepts.
unfoldable pub update_field : String → Option (TenantUpdatePermission → Bool)
update_field field =
    if field == "display_name"
    then some (λ u. u.display_name)
    else if field == "is_enabled"
    then some (λ u. u.is_enabled)
    else if field == "audit_retention_days"
    then some (λ u. u.audit_retention_days)
    else if field == "activity_retention_days"
    then some (λ u. u.activity_retention_days)
    else if field == "retention_purge_enabled"
    then some (λ u. u.retention_purge_enabled)
    else none

-- `none` where the assertion on `field` fails.
unfoldable pub can_update : Checker TenantGrant → String → Option Bool
unfolding update_field
can_update c field = elim (update_field field) [
  | none ↦ none
  | some get ↦ some (can c (λ g. may_update g.permission.update get))
]
