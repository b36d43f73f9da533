-- ===== src/Reaper/Sessions.antt =====
-- The sessions that the reaper watches: the class Reaper of
-- src/provablyfine/cli/pf/openssh_session_reaper.py.
pub mod Authority
pub mod Dropping
pub mod Lawful
pub mod Events
use pf.Base.{
  ℕ, ◌+◌, ◌*◌, ◌/◌, String, Bool, true, false, not, ◌&&◌, ◌||◌, leb, ltb, if◌then◌else◌, ◌==◌,
  nat_eq, string_eq, contains, filter, is_some, Option, none, some, List, [], ◌∷◌, ◌++◌,
}
use pf.Base.Dict.{Dict, lookup, contains_key, insert, erase, keys}
use pf.Reaper.Names.{match_record_name}
use pf.Reaper.Record.{Record, File, read_record}
use pf.Reaper.Processes.{Proc, Snapshot, ConnectionTest, descendants}
use pf.Reaper.Requests.{Orphans, expire}
use pf.Reaper.Spool.{EventKind, start, end}

-- What a tick does to its surroundings, in order.
pub data Effect : Type 0 where
  unlinked : String → Effect
  -- an event about a record, at a time in seconds
  reported : EventKind → Record → ℕ → Effect
  -- the process, and whether it is killed
  signalled : ℕ → Bool → Effect
  request_removed : String → Effect

pub record Reaper : Type 0 where
  -- in seconds
  pub bound : Dict String ℕ
  -- in milliseconds
  pub ending : Dict String ℕ
  pub reported : Dict String Record
  pub orphans : Orphans

-- The arguments of `Reaper.__init__`: in milliseconds the time between asking and killing, and
-- whether there is a directory for events.
pub record Settings : Type 0 where
  pub grace : ℕ
  pub is_live : Bool
  pub is_connection : ConnectionTest

-- What the operating system answers during one tick.
pub record Host : Type 0 where
  -- `sorted(os.listdir(directory))`; `none` is a `FileNotFoundError`
  pub names : Option (List String)
  pub file : String → File
  -- of which files `unlink` succeeds or finds nothing
  pub unlinks : String → Bool
  pub snapshot : Snapshot
  pub start_time : ℕ → Option ℕ
  -- `self._requests.requested()`
  pub requested : List String
  -- the time in milliseconds at which a record is handled
  pub now : String → ℕ
  -- the time in milliseconds at which the requests are checked
  pub expires_at : ℕ
  -- which requests `KillRequests.remove` removes or finds gone
  pub drops_request : String → Bool

-- What comes of a record: the state, the effects, and the record if its session is live.
pub record Turn : Type 0 where
  pub state : Reaper
  pub effects : List Effect
  pub live : Option Record

-- The effects of a statement come before those of the next one.
abbrev pub after : List Effect → Turn → Turn
after effects t = record t { effects = effects ++ t.effects }

module _ (c : Settings) (h : Host) where
  abbrev pub report : EventKind → Record → ℕ → List Effect
  report kind r at = if c.is_live then reported kind r at ∷ [] else []

  abbrev pub report_end : String → Option Record → List Effect
  report_end name none = []
  report_end name (some r) = report end r (h.now name / 1000)

  -- `_forget`
  unfoldable pub forget : String → Reaper → Turn
  forget name s = record {
    state = record s {
      bound = erase name s.bound;
      ending = erase name s.ending;
      reported = erase name s.reported;
    };
    effects = report_end name (lookup name s.reported);
    live = none;
  }

  -- `_drop`; where `unlink` fails, its exception ends `_handle` and `tick` goes on.
  unfoldable pub drop : String → Reaper → Turn
  drop name s =
      if h.unlinks name
      then after (unlinked name ∷ []) (forget name s)
      else record { state = s; effects = []; live = none }

  -- `_signal`: a process that refuses does not stop the others.
  abbrev pub signals : List ℕ → Bool → List Effect
  signals [] force = []
  signals (p ∷ ps) force = signalled p force ∷ signals ps force

  abbrev pub signal_all : Record → Bool → List Effect
  signal_all r force = signals (descendants h.snapshot r.pid ++ r.pid ∷ []) force

  abbrev pub is_past : Option ℕ → ℕ → Bool
  is_past none now = false
  is_past (some deadline) now = leb (deadline * 1000) now

  -- Whether the session has to end.
  abbrev pub is_due : String → Record → Bool
  is_due name r = contains h.requested r.connection_id || is_past r.deadline (h.now name)

  abbrev pub enforce_ending : String → Record → Reaper → Option ℕ → Turn
  enforce_ending name r s none =
      if is_due name r
      then record {
        state = record s { ending = insert name (h.now name) s.ending };
        effects = signal_all r false;
        live = some r;
      }
      else record { state = s; effects = []; live = some r }
  enforce_ending name r s (some ended_at) = record {
    state = s;
    effects = if leb (ended_at + c.grace) (h.now name) then signal_all r true else [];
    live = some r;
  }

  -- `_enforce`
  unfoldable pub enforce : String → Record → Reaper → Turn
  enforce name r s = enforce_ending name r s (lookup name s.ending)

  -- The end of `_handle`, once the process is the one that the record is about.
  unfoldable pub watch : String → Record → Reaper → Turn
  watch name r s =
      let known = enforce name r s in
      let new =
        after (report start r (r.written_ms / 1000))
          (enforce name r (record s { reported = insert name r s.reported })) in
      if contains_key name s.reported then known else new

  abbrev pub bind : String → Record → Proc → ℕ → Reaper → Option ℕ → Turn
  bind name r proc started s none =
      if not (c.is_connection h.snapshot proc)
      then drop name s
      else (if ltb (r.written_ms / 1000) started
          then drop name s
          else watch name r (record s { bound = insert name started s.bound }))
  bind name r proc started s (some bound) = if bound == started then watch name r s else drop name s

  abbrev pub match_started : String → Record → Proc → Reaper → Option ℕ → Turn
  match_started name r proc s none = drop name s
  match_started name r proc s (some started) = bind name r proc started s (lookup name s.bound)

  abbrev pub match_proc : String → Record → Reaper → Option Proc → Turn
  match_proc name r s none = drop name s
  match_proc name r s (some proc) = match_started name r proc s (h.start_time r.pid)

  abbrev pub handle_record : String → Reaper → Option Record → Turn
  handle_record name s none = drop name s
  handle_record name s (some r) = match_proc name r s (lookup r.pid h.snapshot)

  -- `_handle`
  unfoldable pub handle : String → Reaper → Turn
  handle name s = handle_record name s (read_record name (h.file name))
