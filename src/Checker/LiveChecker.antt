-- ===== src/Checker/LiveChecker.antt =====
-- `LiveChecker` and `Grants.live_read_somewhere` of src/provablyfine/api/grant.py.
use pf.Base.{Bool, true, false, ℕ, Option, none, some, List, any, if◌then◌else◌}
use pf.Grant.{Boundary, Role, LiveGrant, as_live}
use pf.Checker.{Checker, can}
use pf.Checker.IdentityChecker.{is_empty, all_in}

-- `cmp`: the tags that the filter wants, and the tags of the host of the session.
unfoldable pub matches_host : Option (List ℕ) → Option (List ℕ) → Bool
matches_host none tags = true
matches_host (some wanted) none = false
matches_host (some wanted) (some tags) = if is_empty wanted then false else all_in wanted tags

unfoldable pub init : List Boundary → List Role → Option (List ℕ) → Checker LiveGrant
unfolding matches_host
init boundaries roles tag_id_list = record {
  boundaries = boundaries;
  roles = roles;
  filter = λ g. matches_host g.filter.tag_id_list tag_id_list;
  cls = as_live;
}

unfoldable pub can_read : Checker LiveGrant → Bool
can_read c = can c (λ g. g.permission.read)

unfoldable pub can_terminate : Checker LiveGrant → Bool
can_terminate c = can c (λ g. g.permission.terminate)

-- Whether some role grants reading live sessions, boundaries aside.
unfoldable pub live_read_somewhere : List Role → Bool
live_read_somewhere roles =
    any
      (λ r. any (λ g. elim (as_live g) [ none ↦ false | some l ↦ l.permission.read ]) r.grant_list)
      roles
