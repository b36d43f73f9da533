-- ===== src/Reaper/Terminator.antt =====
-- Who asks the reaper: register_session and request_kill of
-- src/provablyfine/cli/pf/openssh_session_reaper.py, and src/provablyfine/cli/pf/session_kill.py.
use pf.Base.{
  ℕ, String, Bool, true, false, not, if◌then◌else◌, string_eq, Option, none, some, get_or, List, [],
  ◌∷◌, map, length, ltb,
}
use pf.Base.Dict.{Dict, lookup, insert, erase}
use pf.Reaper.Names.{is_connection_id}
use pf.Reaper.Record.{Record}
use pf.Reaper.Processes.{Proc, Snapshot, ConnectionTest, find_ancestor}
use pf.Reaper.Requests.{kill_request_name}

-- The record of the connection process, if one was found.
abbrev pub record_of : Option ℕ → String → ℕ → Option Proc → Option Record
record_of deadline connection_id now_ms none = none
record_of deadline connection_id now_ms (some monitor) = some (record {
  pid = monitor.pid;
  written_ms = now_ms;
  deadline = deadline;
  connection_id = connection_id;
})

-- `register_session`, up to the writing of the record.
unfoldable pub register_session :
    Snapshot → ConnectionTest → ℕ → Option ℕ → String → ℕ → Option Record
register_session snapshot test pid deadline connection_id now_ms =
    if not (is_connection_id connection_id)
    then none
    else record_of deadline connection_id now_ms (find_ancestor snapshot pid test)

-- `request_kill`: the file that is written, if it can be.
unfoldable pub request_kill : (String → Bool) → String → Option String
request_kill writes connection_id =
    let name = kill_request_name connection_id in
    if not (is_connection_id connection_id) then none else (if writes name then some name else none)

-- The tunnels of each connection, by the id of the token that opened them. `C` stands for the
-- functions that close them.
abbrev pub Tunnels : Type 0 → Type 0
Tunnels C = Dict String (Dict String C)

abbrev pub reason_of : Bool → Option String → Option String
reason_of kill_dir (some name) = none
reason_of true none = some "kill request not written"
reason_of false none = some "no kill directory"

-- What is closed, the request that is written, and the reason why nothing could be done.
pub record Termination (C : Type 0) : Type 0 where
  pub closed : List C
  pub requested : Option String
  pub reason : Option String

module _ {C : Type 0} where
  abbrev pub tunnels_of : String → Tunnels C → Dict String C
  tunnels_of connection_id t = get_or (lookup connection_id t) []

  -- `track_tunnel`
  unfoldable pub track_tunnel : String → String → C → Tunnels C → Tunnels C
  track_tunnel connection_id token_id close t =
      insert connection_id (insert token_id close (tunnels_of connection_id t)) t

  abbrev pub put_back : String → Dict String C → Tunnels C → Tunnels C
  put_back connection_id [] t = erase connection_id t
  put_back connection_id (e ∷ rest) t = insert connection_id (e ∷ rest) t

  -- `untrack_tunnel`
  unfoldable pub untrack_tunnel : String → String → Tunnels C → Tunnels C
  untrack_tunnel connection_id token_id t =
      put_back connection_id (erase token_id (tunnels_of connection_id t)) t

  -- `terminate`; `kill_dir` says whether there is a directory for requests.
  unfoldable pub terminate : Bool → (String → Bool) → String → Tunnels C → Termination C
  terminate kill_dir writes connection_id t =
      let closed = map (λ e. e.1) (tunnels_of connection_id t) in
      let requested = if kill_dir then request_kill writes connection_id else none in
      record {
        closed = closed;
        requested = requested;
        reason = if ltb 0 (length closed) then none else reason_of kill_dir requested;
      }
