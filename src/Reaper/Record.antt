-- ===== src/Reaper/Record.antt =====
-- The records of connections, and reading one that an unprivileged user has written: Record,
-- write_record and read_record of src/provablyfine/cli/pf/openssh_session_reaper.py.
mod Size
pub mod Laws
use Prim.Native.String.{◌++◌ as ◌<>◌}
use pf.Base.{
  ℕ, suc, ◌^◌, ◌/◌, String, Bool, true, false, not, ◌&&◌, ◌||◌, leb, ltb, if◌then◌else◌, ◌==◌,
  nat_eq, string_eq, pair_eq, Option, none, some, List, [], ◌∷◌,
}
use pf.Base.Int.{ℤ, pos}
use pf.Base.Dict.{Dict, lookup}
use pf.Base.Text.{decimal}
use pf.Reaper.Names.{is_connection_id, match_record_name, record_name}

pub record Record : Type 0 where
  pub pid : ℕ
  -- in milliseconds
  pub written_ms : ℕ
  -- in seconds
  pub deadline : Option ℕ
  pub connection_id : String

abbrev pub max_record_bytes : ℕ
max_record_bytes = 4096

abbrev pub max_pid : ℕ
max_pid = 2 ^ 31

-- What `json.loads` gives. Fractions, lists and nested objects are `other`.
pub data Json : Type 0 where
  null : Json
  boolean : Bool → Json
  int : ℤ → Json
  str : String → Json
  other : Json

pub data Loaded : Type 0 where
  invalid : Loaded
  object : Dict String Json → Loaded
  no_object : Loaded

-- `os.stat_result`: whether it is a regular file, and its size.
pub record Stat : Type 0 where
  pub is_regular : Bool
  pub size : ℕ

-- What the file system answers for one path: `lstat`, then `open` with `fstat`, and what the
-- bytes say. `none` is an `OSError`. The file may be replaced between the two calls.
pub record File : Type 0 where
  pub linked : Option Stat
  pub opened : Option (Stat × Loaded)

abbrev pub acceptable : Stat → Bool
acceptable info = info.is_regular && leb info.size max_record_bytes

-- `_is_int` narrows to the number; so does the test against 0.
abbrev pub positive_int : Option Json → Option ℕ
positive_int (some (int (pos n))) = if ltb 0 n then some n else none
positive_int _ = none

-- The deadline is `None`, or a number above 0; a missing key is read as `False`.
abbrev pub read_deadline : Option Json → Option (Option ℕ)
read_deadline (some null) = some none
read_deadline v = elim (positive_int v) [ none ↦ none | some n ↦ some (some n) ]

abbrev pub read_text : Option Json → Option String
read_text (some (str s)) = some s
read_text _ = none

-- The checks on the fields, once they have their types.
unfoldable pub checked : String × String → ℕ → ℕ → Option ℕ → String → Option Record
checked groups pid written_ms deadline connection_id =
    if not (ltb 1 pid && ltb pid max_pid)
    then none
    else (if not (is_connection_id connection_id)
        then none
        else (if not ((decimal pid, connection_id) == groups)
            then none
            else some (record {
              pid = pid;
              written_ms = written_ms;
              deadline = deadline;
              connection_id = connection_id;
            })))

-- The next checks, of a field that passed its own.
unfoldable pub with_number {ℓ} : {A : Type ℓ} → Option A → (A → Option Record) → Option Record
with_number none next = none
with_number (some n) next = next n

unfoldable pub read_fields : String × String → Dict String Json → Option Record
read_fields groups fields = with_number (read_deadline (lookup "deadline" fields)) λ deadline.
    with_number (positive_int (lookup "pid" fields)) λ pid.
      with_number (positive_int (lookup "written_ms" fields)) λ written_ms.
        with_number (read_text (lookup "connection_id" fields))
          λ connection_id. checked groups pid written_ms deadline connection_id

abbrev pub read_loaded : String × String → Loaded → Option Record
read_loaded groups (object fields) = read_fields groups fields
read_loaded groups _ = none

abbrev pub read_opened : String × String → Option (Stat × Loaded) → Option Record
read_opened groups none = none
read_opened groups (some (info, loaded)) =
    if acceptable info then read_loaded groups loaded else none

abbrev pub read_linked : String × String → File → Option Stat → Option Record
read_linked groups file none = none
read_linked groups file (some info) =
    if acceptable info then read_opened groups file.opened else none

abbrev pub read_named : Option (String × String) → File → Option Record
read_named none file = none
read_named (some groups) file = read_linked groups file file.linked

-- `read_record(path)`, of the base name of the path.
unfoldable pub read_record : String → File → Option Record
read_record name file = read_named (match_record_name name) file

abbrev pub written_deadline : Option ℕ → Json
written_deadline none = null
written_deadline (some n) = int (pos n)

-- The keys and values that `write_record` writes.
abbrev pub written : Record → Dict String Json
written r =
    ("pid", int (pos r.pid))
    ∷ ("written_ms", int (pos r.written_ms))
    ∷ ("deadline", written_deadline r.deadline)
    ∷ ("connection_id", str r.connection_id)
    ∷ []

abbrev pub deadline_text : Option ℕ → String
deadline_text none = "null"
deadline_text (some n) = decimal n

-- `json.dumps` of these keys and values; a connection id has no character that it escapes.
unfoldable pub content : Record → String
content r =
    "{\"pid\": "
    <> (decimal r.pid
        <> (", \"written_ms\": "
            <> (decimal r.written_ms
                <> (", \"deadline\": "
                    <> (deadline_text r.deadline
                        <> (", \"connection_id\": \"" <> (r.connection_id <> "\"}")))))))

-- `write_record(directory, record)`: the name of the file and the text in it.
unfoldable pub write_record : Record → String × String
unfolding content
write_record r = (record_name r.pid r.connection_id, content r)

-- The size of a text in ASCII.
unfoldable pub text_size : String → ℕ
text_size String.[] = 0
text_size (String.◌∷◌ c s) = suc (text_size s)

-- What the file system answers for a file that `write_file_atomic` wrote: it is a regular file, with
-- the bytes of its text.
unfoldable pub written_file : (String → Loaded) → String → File
unfolding text_size
written_file loads text =
    let info : Stat = record { is_regular = true; size = text_size text } in
    record { linked = some info; opened = some (info, loads text) }
