-- ===== src/Checker/TagChecker.antt =====
-- `TagChecker` of src/provablyfine/api/grant.py.
use pf.Base.{Bool, Option, List, ℕ}
use pf.Grant.{Boundary, Role, TagGrant, as_tag}
use pf.Checker.{Checker, can}
use pf.Checker.ById.{matches_id}

unfoldable pub init : List Boundary → List Role → Option ℕ → Checker TagGrant
unfolding matches_id
init boundaries roles tag_id = record {
  boundaries = boundaries;
  roles = roles;
  filter = λ g. matches_id g.filter tag_id;
  cls = as_tag;
}

unfoldable pub can_create : Checker TagGrant → Bool
can_create c = can c (λ g. g.permission.create)

unfoldable pub can_read : Checker TagGrant → Bool
can_read c = can c (λ g. g.permission.read)

unfoldable pub can_delete : Checker TagGrant → Bool
can_delete c = can c (λ g. g.permission.delete)
