-- ===== src/Reaper/Logind.antt =====
-- Ending the sessions of Linux on request: src/provablyfine/cli/pf/session_records.py, and
-- LogindReaper of src/provablyfine/cli/pf/openssh_session_reaper.py.
pub mod Laws
use Prim.Native.Char.{Char, code}
use Prim.Native.String.{◌++◌ as ◌<>◌}
use pf.Base.{
  ℕ, suc, String, Bool, true, false, not, ◌&&◌, ◌||◌, leb, if◌then◌else◌, ◌==◌, nat_eq, string_eq,
  filter_map, Option, none, some, List, [], ◌∷◌, ◌++◌,
}
use pf.Reaper.Names.{connection_shape, match_shape, is_connection_id}
use pf.Reaper.Requests.{Orphans, Expiration, expire}

-- `[A-Za-z0-9]`
abbrev pub is_letter : Char → Bool
is_letter c =
    leb 48 (code c) && leb (code c) 57
    || leb 65 (code c) && leb (code c) 90
    || leb 97 (code c) && leb (code c) 122

unfoldable pub letters : ℕ → String → Bool
letters n String.[] = true
letters ℕ.zero (String.◌∷◌ c s) = false
letters (suc n) (String.◌∷◌ c s) = is_letter c && letters n s

-- `_SESSION_ID_RE.fullmatch(s) is not None`
unfoldable pub is_logind_id : String → Bool
is_logind_id s = not (s == "") && letters 32 s

unfoldable pub session_record_name : String → String → String
session_record_name connection_id session_id = connection_id <> ("-" <> session_id)

-- `write`: the name of the file, if the ids have their format.
unfoldable pub write_session : String → String → Option String
write_session connection_id session_id =
    if is_connection_id connection_id && is_logind_id session_id
    then some (session_record_name connection_id session_id)
    else none

abbrev pub of_connection : String → Option String → Option (String × String)
of_connection connection_id none = none
of_connection connection_id (some s) = if is_logind_id s then some (connection_id, s) else none

abbrev pub after_dash : String → Option String
after_dash String.[] = none
after_dash (String.◌∷◌ c s) = if code c == 45 then some s else none

abbrev pub ids_of : Option (String × String) → Option (String × String)
ids_of none = none
ids_of (some (connection_id, rest)) = of_connection connection_id (after_dash rest)

-- `_NAME_RE.fullmatch(name)`: its groups.
unfoldable pub match_session_name : String → Option (String × String)
match_session_name name = ids_of (match_shape connection_shape name)

abbrev pub session_of : String → Option (String × String) → Option String
session_of connection_id none = none
session_of connection_id (some (c, s)) = if c == connection_id then some s else none

-- `session_ids`, of the sorted listing; `none` is an `OSError`.
unfoldable pub session_ids : Option (List String) → String → List String
session_ids none connection_id = []
session_ids (some names) connection_id =
    filter_map (λ name. session_of connection_id (match_session_name name)) names

-- What one tick does: the sessions that it ends, the requests that it removes, those that no
-- session claims, and whether no removal failed.
pub record Claims : Type 0 where
  pub terminated : List String
  pub removed : List String
  pub unclaimed : List String
  pub finished : Bool

abbrev pub leave : String → Claims → Claims
leave c r = record r { unclaimed = c ∷ r.unclaimed }

abbrev pub claim : List String → String → Claims → Claims
claim ids c r = record r { terminated = ids ++ r.terminated; removed = c ∷ r.removed }

abbrev pub claim_or_leave : (String → Bool) → String → List String → Claims → Claims
claim_or_leave unlinks c [] rest = leave c rest
claim_or_leave unlinks c (i ∷ ids) rest =
    if unlinks c
    then claim (i ∷ ids) c rest
    else record { terminated = i ∷ ids; removed = []; unclaimed = []; finished = false }

-- The loop of `LogindReaper.tick`, over the sorted requests. `terminate` is called for each session
-- and its answer is not used.
unfoldable pub claim_each : (String → Bool) → Option (List String) → List String → Claims
claim_each unlinks names [] = record {
  terminated = [];
  removed = [];
  unclaimed = [];
  finished = true;
}
claim_each unlinks names (c ∷ cs) =
    claim_or_leave unlinks c (session_ids names c) (claim_each unlinks names cs)

-- `LogindReaper.tick`: an error of the loop passes over the end. The requests that are removed are
-- those of the loop and those of `expire`.
unfoldable pub tick_logind :
    (String → Bool) → ℕ → Option (List String) → List String → Orphans → Claims × Expiration
tick_logind unlinks now names requested orphans =
    let r = claim_each unlinks names requested in
    let kept : Expiration = record { orphans = orphans; removed = []; finished = false } in
    let expired = expire unlinks now r.unclaimed orphans in
    (r, if r.finished then expired else kept)
