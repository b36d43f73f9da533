-- ===== src/Ssh/Commands.antt =====
-- `SSHCommandPermissions` of src/provablyfine/api/grant.py: the commands that may be run, each with
-- the bound of its session. `named` holds what is known of single commands, `other` goes for all
-- the rest, and `none` in either means that a command is not permitted.
pub mod Laws
use mathlib.Core.List.{foldl}
use pf.Base.{
  ℕ, Bool, ◌≡◌, Option, none, some, List, [], ◌∷◌, ◌++◌, String, string_eq, get_or, is_some,
  filter_map, if◌then◌else◌,
}
use pf.Base.Dict.{Dict, lookup, insert, keys, map_values}
use pf.Grant.Permission.{SshPermission}
use pf.Ssh.Ttl.{ttl_max, ttl_min}

pub record SshCommandAllowed : Type 0 where
  pub ttl : Option ℕ

unfoldable pub covered_union :
    Option SshCommandAllowed → Option SshCommandAllowed → Option SshCommandAllowed
covered_union none b = b
covered_union (some a) none = some a
covered_union (some a) (some b) = some (record { ttl = ttl_max a.ttl b.ttl })

unfoldable pub covered_intersection :
    Option SshCommandAllowed → Option SshCommandAllowed → Option SshCommandAllowed
covered_intersection none b = none
covered_intersection (some a) none = none
covered_intersection (some a) (some b) = some (record { ttl = ttl_min a.ttl b.ttl })

unfoldable pub covered_deny : Option SshCommandAllowed → Option ℕ → Option SshCommandAllowed
covered_deny none ttl = none
covered_deny (some a) none = none
covered_deny (some a) (some ttl) = some (record { ttl = ttl_min a.ttl (some ttl) })

pub record SshCommandPermissions : Type 0 where
  pub named : Dict String (Option SshCommandAllowed)
  pub other : Option SshCommandAllowed

-- `self._named.get(command, self._other)`
unfoldable pub permits : SshCommandPermissions → String → Option SshCommandAllowed
permits s command = get_or (lookup command s.named) s.other

-- The body of the loops over the entries: `combine` is the union of `allowed_by`, or the
-- deduction of `subtract`.
update_command :
    (Option SshCommandAllowed → Option SshCommandAllowed)
    → SshCommandPermissions
    → String
    → SshCommandPermissions
update_command combine s command = record s {
  named = insert command (combine (get_or (lookup command s.named) s.other)) s.named;
}

update :
    (Option SshCommandAllowed → Option SshCommandAllowed)
    → SshCommandPermissions
    → Option (List String)
    → SshCommandPermissions
update combine s none = record { named = map_values combine s.named; other = combine s.other }
update combine s (some commands) = foldl (update_command combine) s commands

allow : SshCommandPermissions → SshPermission → SshCommandPermissions
allow s p =
    update (λ a. covered_union a (some (record { ttl = p.max_session_ttl_s }))) s p.command_list

deny : SshCommandPermissions → SshPermission → SshCommandPermissions
deny s p = update (λ a. covered_deny a p.max_session_ttl_s) s p.command_list

abbrev nothing : SshCommandPermissions
nothing = record { named = []; other = none }

unfoldable pub allowed_by : List SshPermission → SshCommandPermissions
unfolding allow update update_command
allowed_by permissions = foldl allow nothing permissions

-- `{c: f(c) for c in commands}`
named_from :
    (String → Option SshCommandAllowed) → List String → Dict String (Option SshCommandAllowed)
named_from f commands = foldl (λ d c. insert c (f c) d) [] commands

unfoldable pub intersect : SshCommandPermissions → SshCommandPermissions → SshCommandPermissions
unfolding named_from
intersect s ceiling = record {
  named =
      named_from (λ c. covered_intersection (permits s c) (permits ceiling c))
        (keys s.named ++ keys ceiling.named);
  other = covered_intersection s.other ceiling.other;
}

unfoldable pub subtract : SshCommandPermissions → List SshPermission → SshCommandPermissions
unfolding deny update update_command
subtract s permissions = foldl deny s permissions

-- The commands that are permitted by name, and whether all others are.
unfoldable pub candidates : SshCommandPermissions → List String × Bool
candidates s = (filter_map (λ e. if is_some e.1 then some e.0 else none) s.named, is_some s.other)
