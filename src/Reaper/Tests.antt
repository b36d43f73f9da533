-- ===== src/Reaper/Tests.antt =====
-- Runs of the reaper, and the claims about it at concrete inputs.
use mathlib.Core.List.{Memᴰ}
use mathlib.Core.List.Memᴰ.{head}
use pf.Base.{
  if◌then◌else◌, arith, String, [], contains, false, nat_eq, refl, some, string_eq, true, ℕ, ◌&&◌,
  ◌+◌, ◌==◌, ◌↔◌, ◌∷◌, ◌≡◌,
}
use pf.Base.Dict.{lookup}
use pf.Reaper.Names.{record_name}
use pf.Reaper.Record.{
  Record, File, Loaded, object, invalid, written, written_file, read_record, write_record,
}
use pf.Reaper.Record.Laws.{in_bounds, read_record-write_record, read_record-record_name}
use pf.Reaper.Processes.{Snapshot, macos_connection, descendants, ancestors}
use pf.Reaper.Processes.Descendants.{Below, descendants-Below}
use pf.Reaper.Requests.{Orphans, expire}
use pf.Reaper.Requests.Expiry.{kept, is_old, expire-is_old}
use pf.Reaper.Sessions.{reported, signalled, Settings, Host}
use pf.Reaper.Spool.{start, end}
use pf.Reaper.Sessions.Authority.{IsAuthorised}
use pf.Reaper.Ticks.{tick, state_after}
use pf.Reaper.Ticks.Safety.{unused, tick-IsAuthorised}
use pf.Reaper.Ticks.Reports.{effects_after, events-unended}
use pf.Reaper.Sessions.Events.{events, unended}
use pf.Reaper.Run.{run}

abbrev alice : String
alice = "0123abcd-0123-4567-89ab-0123456789ab"

abbrev entry : Record
entry = record { pid = 700; written_ms = 50000; deadline = some 60; connection_id = alice }

abbrev name : String
name = "700-0123abcd-0123-4567-89ab-0123456789ab.json"

write_record_name : (write_record entry).0 ≡ name
unfolding run
write_record_name = refl

abbrev entry_text : String
entry_text =
    "{\"pid\": 700, \"written_ms\": 50000, \"deadline\": 60, \"connection_id\": \"0123abcd-0123-4567-89ab-0123456789ab\"}"

write_record_text : (write_record entry).1 ≡ entry_text
unfolding run
write_record_text = refl

-- A reader of this text only.
abbrev loads : String → Loaded
loads text = if text == entry_text then object (written entry) else invalid

loads_entry : loads (write_record entry).1 ≡ object (written entry)
unfolding run string_eq
loads_entry = refl

abbrev file : File
file = written_file loads (write_record entry).1

abbrev processes : Snapshot
processes =
    (1, record { pid = 1; ppid = 0; command = "launchd" })
    ∷ (700, record { pid = 700; ppid = 1; command = "sshd-session: alice [priv]" })
    ∷ (701, record { pid = 701; ppid = 700; command = "sshd-session: alice" })
    ∷ (702, record { pid = 702; ppid = 701; command = "-zsh" })
    ∷ []

below_alice : descendants processes 700 ≡ 701 ∷ 702 ∷ []
unfolding run
below_alice = refl

above_zsh :
    ancestors processes 702
    ≡ record { pid = 701; ppid = 700; command = "sshd-session: alice" }
      ∷ record { pid = 700; ppid = 1; command = "sshd-session: alice [priv]" }
      ∷ record { pid = 1; ppid = 0; command = "launchd" }
      ∷ []
unfolding run
above_zsh = refl

abbrev settings : Settings
settings = record {
  grace = 5000;
  is_live = true;
  is_connection = macos_connection (λ title. title == "sshd-session: alice [priv]");
}

abbrev at : ℕ → Host
at now = record {
  names = some (name ∷ "notes.txt" ∷ []);
  file = λ _. file;
  unlinks = λ _. true;
  snapshot = processes;
  start_time = λ _. some 40;
  requested = [];
  now = λ _. now;
  expires_at = now;
  drops_request = λ _. true;
}

first_tick :
    (tick settings (at 60000) unused).effects
    ≡ reported start entry 50 ∷ signalled 701 false ∷ signalled 702 false ∷ signalled 700 false ∷ []
unfolding run
first_tick = refl

last_tick :
    (tick settings (at 65000) (state_after settings unused (at 60000 ∷ []))).effects
    ≡ signalled 701 true ∷ signalled 702 true ∷ signalled 700 true ∷ []
unfolding run
last_tick = refl

killed :
    Memᴰ
      (signalled 701 true)
      (tick settings (at 65000) (state_after settings unused (at 60000 ∷ []))).effects
unfolding run
killed = head refl

tick-IsAuthorised_example : IsAuthorised settings (at 65000 ∷ at 60000 ∷ []) (at 65000) 701 true
tick-IsAuthorised_example = tick-IsAuthorised settings (at 60000 ∷ []) (at 65000) 701 true killed

in_bounds_entry : in_bounds entry ≡ true
unfolding run
in_bounds_entry = refl

read_record-write_record_example : read_record (write_record entry).0 file ≡ some entry
read_record-write_record_example =
    read_record-write_record loads entry loads_entry in_bounds_entry (omega arith) (omega arith)

read_entry : read_record name file ≡ some entry
unfolding run
read_entry = refl

read_record-record_name_example : (in_bounds entry ≡ true) × (name ≡ record_name 700 alice)
read_record-record_name_example = read_record-record_name name file read_entry

descendants-Below_example :
    (contains (descendants processes 700) 702 ≡ true)
    ↔ (Below processes 700 702 × (◌==◌ {A = ℕ} 702 700 ≡ false))
descendants-Below_example = descendants-Below processes 700 702

abbrev waiting : Orphans
waiting = (alice, 1000) ∷ []

expire-is_old_example :
    let e = expire (λ _. true) 61000 (alice ∷ "b" ∷ []) waiting in
    (contains e.removed alice
      ≡ (contains (alice ∷ "b" ∷ []) alice && is_old 61000 (lookup alice waiting)))
    × (lookup alice e.orphans
        ≡ kept 61000 (contains (alice ∷ "b" ∷ []) alice) (lookup alice waiting))
unfolding run
expire-is_old_example = expire-is_old (λ _. true) 61000 (alice ∷ "b" ∷ []) waiting alice refl refl

expired_request : (expire (λ _. true) 61000 (alice ∷ "b" ∷ []) waiting).removed ≡ alice ∷ []
unfolding run
expired_request = refl

events-unended_example :
    let hs = at 65000 ∷ at 60000 ∷ [] in
    events start name (effects_after settings hs)
    ≡ events end name (effects_after settings hs) + unended name (state_after settings unused hs)
events-unended_example = events-unended settings (at 65000 ∷ at 60000 ∷ []) name refl
