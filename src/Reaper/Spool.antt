-- ===== src/Reaper/Spool.antt =====
-- The spool of session events: src/provablyfine/cli/pf/live_events.py.
pub mod Passing
pub mod Sorted
pub mod Order
use Prim.Native.Char.{code}
use pf.Base.{
  ℕ, suc, ◌+◌, String, Bool, true, false, not, ◌&&◌, ◌||◌, leb, ltb, if◌then◌else◌, ◌==◌, nat_eq,
  string_eq, pair_eq, contains, filter, max, Option, none, some, List, [], ◌∷◌, ◌++◌,
}
use pf.Base.Int.{ℤ, pos}
use pf.Base.Dict.{Dict, lookup}
use pf.Reaper.Names.{is_digit, Class, hex, digit, dash, match_shape, is_connection_id}
use pf.Reaper.Record.{Json, int, str, Loaded, object, Stat, read_text}
use pf.Reaper.Requests.{strip_prefix}

pub data EventKind : Type 0 where
  start : EventKind
  end : EventKind

pub record Event : Type 0 where
  pub kind : EventKind
  pub connection_id : String
  pub session_id : String
  -- in seconds
  pub at : ℕ

abbrev pub max_event_bytes : ℕ
max_event_bytes = 1024

-- 600 seconds; times of files are in milliseconds.
abbrev pub max_age : ℕ
max_age = 600000

-- `_SESSION_ID_RE.fullmatch(s) is not None`: at most so many letters, digits, dots, dashes and low
-- lines.
abbrev pub in_session_id : ℕ → Bool
in_session_id c =
    leb 48 c && leb c 57
    || leb 65 c && leb c 90
    || leb 97 c && leb c 122
    || c == 45
    || c == 46
    || c == 95

unfoldable pub at_most : ℕ → String → Bool
at_most n String.[] = true
at_most ℕ.zero (String.◌∷◌ c s) = false
at_most (suc n) (String.◌∷◌ c s) = in_session_id (code c) && at_most n s

unfoldable pub is_session_id : String → Bool
is_session_id s = at_most 64 s

abbrev repeat : ℕ → Class → List Class → List Class
repeat ℕ.zero k rest = rest
repeat (suc n) k rest = k ∷ repeat n k rest

abbrev pub ends_name : EventKind → Option (String × String) → Option EventKind
ends_name kind none = none
ends_name kind (some (_, rest)) = if rest == ".json" then some kind else none

abbrev pub after_kind : EventKind → Option String → Option EventKind
after_kind kind none = none
after_kind kind (some s) = ends_name kind (match_shape (dash ∷ repeat 8 hex []) s)

abbrev pub first_of : Option EventKind → Option EventKind → Option EventKind
first_of none other = other
first_of (some kind) other = some kind

abbrev pub after_stamp : Option (String × String) → Option EventKind
after_stamp none = none
after_stamp (some (_, s)) =
    first_of (after_kind start (strip_prefix "start" s)) (after_kind end (strip_prefix "end" s))

-- `_NAME_RE.fullmatch(name)`: its second group.
unfoldable pub match_event_name : String → Option EventKind
match_event_name name = after_stamp (match_shape (repeat 16 digit (dash ∷ [])) name)

-- What the file system answers for one path; `none` is an `OSError`.
pub record EventFile : Type 0 where
  pub linked : Option Stat
  pub loaded : Option Loaded

-- `at >= 0`, of a number.
abbrev pub natural : Option Json → Option ℕ
natural (some (int (pos n))) = some n
natural _ = none

abbrev pub is_valid : Event → Bool
is_valid e = is_connection_id e.connection_id && is_session_id e.session_id

abbrev pub checked_event : Event → Option Event
checked_event e = if is_valid e then some e else none

abbrev pub with_at : EventKind → Option String → Option String → Option ℕ → Option Event
with_at kind (some connection_id) (some session_id) (some at) =
    checked_event
      (record { kind = kind; connection_id = connection_id; session_id = session_id; at = at })
with_at kind _ _ _ = none

abbrev pub read_event_loaded : EventKind → Option Loaded → Option Event
read_event_loaded kind (some (object fields)) =
    with_at kind (read_text (lookup "connection_id" fields))
      (read_text (lookup "session_id" fields)) (natural (lookup "at" fields))
read_event_loaded kind _ = none

abbrev pub read_event_linked : EventKind → EventFile → Option Stat → Option Event
read_event_linked kind file none = none
read_event_linked kind file (some info) =
    if info.is_regular && leb info.size max_event_bytes
    then read_event_loaded kind file.loaded
    else none

abbrev pub read_event_named : Option EventKind → EventFile → Option Event
read_event_named none file = none
read_event_named (some kind) file = read_event_linked kind file file.linked

-- `_read(path)`, of the base name of the path.
unfoldable pub read_event : String → EventFile → Option Event
read_event name file = read_event_named (match_event_name name) file

-- A file of the spool, for which `read_event` gives its event: the time stamp of its name stands for
-- the name. Names have sixteen digits in front, and so they sort as their stamps.
abbrev pub Entry : Type 0
Entry = ℕ × Event

-- `sorted(os.listdir(directory))`
unfoldable pub insert_name : Entry → List Entry → List Entry
insert_name f [] = f ∷ []
insert_name f (g ∷ gs) = let rest = insert_name f gs in if leb f.0 g.0 then f ∷ g ∷ gs else g ∷ rest

unfoldable pub sorted_names : List Entry → List Entry
unfolding insert_name
sorted_names [] = []
sorted_names (f ∷ fs) = insert_name f (sorted_names fs)

-- The key by which `forward` blocks.
abbrev pub session : Entry → String × String
session (stamp, e) = (e.connection_id, e.session_id)

-- What the server and the file system answer during one pass.
pub record Surroundings : Type 0 where
  -- whether `lstat` and `open` give what was written
  pub reads : Entry → Bool
  pub accepts : Entry → Bool
  pub unlinks : ℕ → Bool
  -- the time of the last change of a file, if it is still there
  pub changed : ℕ → Option ℕ
  pub now : ℕ

-- What was sent, and the files that are left.
pub record Pass : Type 0 where
  pub sent : List Entry
  pub left : List Entry

abbrev pub keep : Entry → Pass → Pass
keep f p = record p { left = f ∷ p.left }

abbrev pub take_out : Bool → Entry → Pass → Pass
take_out unlinked f p = record { sent = f ∷ p.sent; left = if unlinked then p.left else f ∷ p.left }

-- The loop of `forward`.
unfoldable pub forward_each : Surroundings → List (String × String) → List Entry → Pass
forward_each h blocked [] = record { sent = []; left = [] }
forward_each h blocked (f ∷ fs) =
    let waits = contains blocked (session f) in
    let rest = forward_each h (if waits || h.accepts f then blocked else session f ∷ blocked) fs in
    if waits
    then keep f rest
    else (if h.accepts f then take_out (h.unlinks f.0) f rest else keep f rest)

abbrev pub is_over_age : ℕ → Option ℕ → Bool
is_over_age now none = false
is_over_age now (some changed) = ltb (changed + max_age) now

-- `_expire`, of the files that hold events.
unfoldable pub expire_files : Surroundings → List Entry → List Entry
expire_files h files = filter (λ f. not (is_over_age h.now (h.changed f.0) && h.unlinks f.0)) files

-- `read_events(directory)`, whatever the order of the directory is.
unfoldable pub read_events : Surroundings → List Entry → List Entry
unfolding sorted_names
read_events h files = filter h.reads (sorted_names files)

-- `forward`: files that cannot be read in this pass stay.
unfoldable pub forward : Surroundings → List Entry → Pass
unfolding read_events forward_each expire_files
forward h files =
    let p = forward_each h [] (read_events h files) in
    record p { left = expire_files h (filter (λ f. not (h.reads f)) files ++ p.left) }

-- The directory, with `_last_us` of the process that writes.
pub record Spool : Type 0 where
  pub last_us : ℕ
  pub files : List Entry

-- `write_event` at the time `now_us`; the file may fail to be written.
unfoldable pub write_event : ℕ → Bool → Event → Spool → Spool
write_event now_us can_write e s =
    let stamp = max now_us (suc s.last_us) in
    if is_valid e
    then record { last_us = stamp; files = if can_write then (stamp, e) ∷ s.files else s.files }
    else s

-- What happens to the spool: the call of `write_event`, or a pass of `run`.
pub data Step : Type 0 where
  write : ℕ → Bool → Event → Step
  pass : Surroundings → Step

pub record Forwarded : Type 0 where
  pub sent : List Entry
  pub spool : Spool

-- The passes of `run`, with what is written before and between them.
unfoldable pub run_passes : List Step → Spool → Forwarded
unfolding write_event forward
run_passes [] s = record { sent = []; spool = s }
run_passes (write now_us can_write e ∷ steps) s =
    run_passes steps (write_event now_us can_write e s)
run_passes (pass h ∷ steps) s =
    let p = forward h s.files in
    let rest = run_passes steps (record s { files = p.left }) in
    record rest { sent = p.sent ++ rest.sent }
