-- ===== src/Checker/AuditLogChecker.antt =====
-- `AuditLogChecker` of src/provablyfine/api/grant.py.
use pf.Base.{Bool, true, List}
use pf.Grant.{Boundary, Role, AuditLogGrant, as_audit_log}
use pf.Checker.{Checker, can}

unfoldable pub init : List Boundary → List Role → Checker AuditLogGrant
init boundaries roles = record {
  boundaries = boundaries;
  roles = roles;
  filter = λ g. true;
  cls = as_audit_log;
}

unfoldable pub can_read : Checker AuditLogGrant → Bool
can_read c = can c (λ g. g.permission.read)
