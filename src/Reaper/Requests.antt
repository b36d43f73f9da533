-- ===== src/Reaper/Requests.antt =====
-- The requests to end a session: KillRequests of
-- src/provablyfine/cli/pf/openssh_session_reaper.py.
pub mod Expiry
use Prim.Native.Char.{code}
use Prim.Native.String.{◌++◌ as ◌<>◌}
use pf.Base.{
  ℕ, ◌+◌, String, Bool, true, false, leb, ltb, if◌then◌else◌, ◌==◌, nat_eq, string_eq, contains,
  filter, filter_map, Option, none, some, get_or, List, [], ◌∷◌,
}
use pf.Base.Dict.{Dict, lookup, insert, erase}
use pf.Reaper.Names.{is_connection_id}

-- 60 seconds; every time is in milliseconds.
abbrev pub kill_request_ttl : ℕ
kill_request_ttl = 60000

-- What follows a prefix.
unfoldable pub strip_prefix : String → String → Option String
strip_prefix String.[] s = some s
strip_prefix (String.◌∷◌ c p) String.[] = none
strip_prefix (String.◌∷◌ c p) (String.◌∷◌ d s) =
    let rest = strip_prefix p s in if code c == code d then rest else none

abbrev pub only_id : Option String → Option String
only_id none = none
only_id (some s) = if is_connection_id s then some s else none

-- `_KILL_NAME_RE.fullmatch(name)`: its group.
unfoldable pub match_kill_name : String → Option String
match_kill_name name = only_id (strip_prefix "kill-" name)

unfoldable pub kill_request_name : String → String
kill_request_name connection_id = "kill-" <> connection_id

-- `KillRequests.requested`, of the listing of the directory: `none` where there is no directory or
-- it cannot be listed.
unfoldable pub requested : Option (List String) → List String
requested none = []
requested (some names) = filter_map match_kill_name names

-- When each request was first seen without a live session.
abbrev pub Orphans : Type 0
Orphans = Dict String ℕ

-- The table after a loop, the requests that were removed, and whether it went to its end: an
-- error of `unlink` other than a missing file goes through.
pub record Expiration : Type 0 where
  pub orphans : Orphans
  pub removed : List String
  pub finished : Bool

-- `setdefault(connection_id, now)`
abbrev pub set_default : String → ℕ → Orphans → Orphans
set_default connection_id now orphans =
    insert connection_id (get_or (lookup connection_id orphans) now) orphans

abbrev pub also_removed : String → Expiration → Expiration
also_removed connection_id e = record e { removed = connection_id ∷ e.removed }

-- The second loop of `expire`. `unlinks` says of which requests `remove` succeeds.
unfoldable pub expire_each : (String → Bool) → ℕ → List String → Orphans → Expiration
expire_each unlinks now [] orphans = record { orphans = orphans; removed = []; finished = true }
expire_each unlinks now (c ∷ cs) orphans =
    let seen = set_default c now orphans in
    let waiting = expire_each unlinks now cs seen in
    let gone = also_removed c (expire_each unlinks now cs (erase c seen)) in
    let failed : Expiration = record { orphans = seen; removed = []; finished = false } in
    if ltb now (get_or (lookup c orphans) now + kill_request_ttl)
    then waiting
    else (if unlinks c then gone else failed)

-- `KillRequests.expire(orphans)`
unfoldable pub expire : (String → Bool) → ℕ → List String → Orphans → Expiration
expire unlinks now orphans table =
    expire_each unlinks now orphans (filter (λ e. contains orphans e.0) table)
