-- ===== src/Reaper/HostTests.antt =====
-- Runs of the spool, the hook and the reaper of Linux, and the claims about them at concrete
-- inputs.
use pf.Base.{
  ℕ, List, Option, String, [], any, ap, contains, false, if◌then◌else◌, nat_eq, none, not, refl,
  some, string_eq, true, ◌&&◌, ◌++◌, ◌==◌, ◌∷◌, ◌≡◌,
}
use pf.Reaper.Names.{is_connection_id}
use pf.Reaper.Record.{int, str, Stat, object}
use pf.Reaper.Spool.{start, end, write, pass}
use pf.Base.Int.{pos}
use pf.Reaper.Spool.{Event, Step, Surroundings, sorted_names, run_passes, read_event}
use pf.Reaper.Spool.Order.{events_of, written_of, run_passes-events_of}
use pf.Reaper.Hook
use pf.Reaper.Hook.Endings.{endings, binding, ended_by, endings-handle_open_session}
use pf.Reaper.Logind.{is_logind_id, session_record_name, tick_logind}
use pf.Reaper.Logind.Laws.{tick_logind-contains}
use pf.Reaper.Terminator.{track_tunnel, untrack_tunnel, terminate}
use pf.Reaper.Run.{run}

abbrev alice : String
alice = "0123abcd-0123-4567-89ab-0123456789ab"

abbrev plain : Stat
plain = record { is_regular = true; size = 120 }

abbrev opened : Event
opened = record { kind = start; connection_id = alice; session_id = "700"; at = 50 }

abbrev closed : Event
closed = record { kind = end; connection_id = alice; session_id = "700"; at = 65 }

-- The server refuses the first event in the first pass.
abbrev refusing : Surroundings
refusing = record {
  reads = λ _. true;
  accepts = λ f. not (f.0 == 50);
  unlinks = λ _. true;
  changed = λ _. some 1000;
  now = 2000;
}

abbrev accepting : Surroundings
accepting = record {
  reads = λ _. true;
  accepts = λ _. true;
  unlinks = λ _. true;
  changed = λ _. some 1000;
  now = 3000;
}

-- The clock goes back before the second event.
abbrev steps : List Step
steps =
    write 50 true opened
    ∷ write 20 true closed
    ∷ pass refusing
    ∷ write 65 false opened
    ∷ pass accepting
    ∷ []

sent_in_order :
    (run_passes steps (record { last_us = 0; files = [] })).sent ≡ (50, opened) ∷ (51, closed) ∷ []
unfolding run
sent_in_order = refl

run_passes-events_of_example :
    let r = run_passes steps (record { last_us = 0; files = [] }) in
    events_of (alice, "700") r.sent ++ events_of (alice, "700") (sorted_names r.spool.files)
    ≡ written_of (alice, "700") steps
run_passes-events_of_example =
    run_passes-events_of (alice, "700") steps
      ((λ _. (refl, refl, refl)), ((λ _. (refl, refl, refl)), tt))

read_event_test :
    read_event "0000000000000050-start-0123abcd.json" (record {
      linked = some plain;
      loaded = some (
          object
            (("at", int (pos 50)) ∷ ("connection_id", str alice) ∷ ("session_id", str "700") ∷ []));
    })
    ≡ some opened
unfolding run
read_event_test = refl

abbrev hooked : Hook.Surroundings
hooked = record {
  live_events = true;
  sessions = true;
  trusted = "ca" ∷ [];
  auth_info = "password" ∷ "publickey ssh-ed25519-cert-v01@openssh.com AAAA" ∷ [];
  session_id = "c3";
  reports_at = 50;
  now = 50;
}

abbrev parse_cert : String → Option Hook.SessionCert
parse_cert blob =
    if blob == "AAAA"
    then some (record { session_deadline = some 60; connection_id = some alice; signer = "ca" })
    else none

open_session_test :
    Hook.handle_open_session hooked parse_cert
    ≡ Hook.reported start alice "c3" 50 ∷ Hook.recorded alice "c3" ∷ Hook.timer alice "c3" 10 ∷ []
unfolding run
open_session_test = refl

endings-handle_open_session_example :
    endings 50 (Hook.handle_open_session hooked parse_cert)
    ≡ ended_by "c3" 50 (binding ("ca" ∷ []) (Hook.cert_from_auth_info parse_cert hooked.auth_info))
endings-handle_open_session_example = endings-handle_open_session hooked parse_cert

abbrev session_names : List String
session_names =
    "0123abcd-0123-4567-89ab-0123456789ab-c3" ∷ "0123abcd-0123-4567-89ab-0123456789ab-c3!" ∷ []

logind_test :
    (tick_logind (λ _. true) 1000 (some session_names) (alice ∷ []) []).0.terminated ≡ "c3" ∷ []
unfolding run
logind_test = refl

valid_connection : is_connection_id alice ≡ true
unfolding run
valid_connection = refl

valid_session : is_logind_id "c3" ≡ true
unfolding run
valid_session = refl

tick_logind-contains_example :
    contains (tick_logind (λ _. true) 1000 (some session_names) (alice ∷ []) []).0.terminated "c3"
    ≡ any (λ c. contains session_names (session_record_name c "c3")) (alice ∷ [])
tick_logind-contains_example =
    tick_logind-contains (λ _. true) 1000 session_names (alice ∷ []) [] "c3" refl
      (ap (λ b. b && true) valid_connection) valid_session

terminate_test :
    terminate false (λ _. true) alice (track_tunnel {C = ℕ} alice "t" 7 [])
    ≡ record { closed = 7 ∷ []; requested = none; reason = none }
unfolding run
terminate_test = refl

untracked_test :
    terminate true
      (λ _. true)
      alice
      (untrack_tunnel alice "t" (track_tunnel {C = ℕ} alice "t" 7 []))
    ≡ record {
      closed = [];
      requested = some "kill-0123abcd-0123-4567-89ab-0123456789ab";
      reason = none;
    }
unfolding run
untracked_test = refl
