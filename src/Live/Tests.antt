-- ===== src/Live/Tests.antt =====
-- Runs of the registry of live sessions, and the theorems at concrete inputs.
use pf.Base.{
  ℕ, ◌≡◌, refl, false, Option, none, some, [], ◌∷◌, map, String, string_eq, nat_eq, option_eq,
  filter,
}
use pf.Http.{ok, fail}
use pf.Checker.LiveChecker.{can_read}
use pf.Certificate.Tables.{Caller, SshConnection}
use pf.Live.Registry.{host, LiveSession, Report, end}
use pf.Live.Registry.Run.{run}
use pf.Live.Registry.Laws.{ended, end-ended}
use pf.Live.Registry.Laws.Invariant.{
  State, end_reported, connections_swept, stay, then_step, IsSound, Steps-IsSound,
}
use pf.Live.Endpoints.{checker, LiveReport, start_endpoint, end_endpoint, terminate_endpoint}
use pf.Live.Endpoints.Laws.{terminate_endpoint-filter}

abbrev connection_to_web : SshConnection
connection_to_web = record {
  connection_id = "c1";
  identity_id = 3;
  hostname = "web";
  deadline = some 4601;
  valid_before = 1121;
}

abbrev web : Caller
web = record {
  identity = record {
    id = 7;
    name = "web";
    tag_id_list = [];
    boundary_id_list = [];
    unix_username = none;
  };
  boundaries = [];
  roles = [];
}

abbrev session : String → Option ℕ → LiveSession
session session_id ended_at = record {
  id = session_id;
  connection_id = "c1";
  identity_id = 3;
  hostname = "web";
  kind = host;
  session_id = session_id;
  started_at = 100;
  ended_at = ended_at;
  deadline = some 4601;
}

abbrev report : String → ℕ → LiveReport
report session_id at = record {
  connection_id = "c1";
  kind = host;
  session_id = session_id;
  at = at;
}

start_run :
    (start_endpoint web 500 "s1" (report "s1" 100) (connection_to_web ∷ []) []
      ≡ ok (session "s1" none ∷ []))
    × (start_endpoint web 500 "s9"
          (report "s1" 200)
          (connection_to_web ∷ [])
          (session "s1" none ∷ [])
        ≡ ok (session "s1" none ∷ []))
    × (start_endpoint web 500 "s1" (report "s1" 100) [] [] ≡ fail 403 "Forbidden")
unfolding run start_endpoint
start_run = (refl, refl, refl)

end_run :
    (end_endpoint web 500
        (report "" 900)
        (connection_to_web ∷ [])
        (session "s1" (some 300) ∷ session "s2" none ∷ [])
      ≡ ok (session "s1" (some 300) ∷ session "s2" (some 500) ∷ []))
    × (end_endpoint web 500
          (report "s2" 50)
          (connection_to_web ∷ [])
          (session "s1" none ∷ session "s2" none ∷ [])
        ≡ ok (session "s1" none ∷ session "s2" (some 100) ∷ []))
unfolding run end_endpoint
end_run = (refl, refl)

abbrev end_of_all : Report
end_of_all = record {
  connection_id = "c1";
  hostname = "web";
  kind = host;
  session_id = "";
  at = 400;
}

end-ended_example :
    end end_of_all (connection_to_web ∷ []) (session "s1" (some 300) ∷ session "s2" none ∷ [])
    ≡ some (map (ended end_of_all) (session "s1" (some 300) ∷ session "s2" none ∷ []))
unfolding run
end-ended_example =
    end-ended end_of_all (connection_to_web ∷ []) connection_to_web
      (session "s1" (some 300) ∷ session "s2" none ∷ []) refl refl

abbrev before : State
before = record {
  connections = connection_to_web ∷ [];
  sessions = session "s1" none ∷ [];
  issued = connection_to_web ∷ [];
}

abbrev after : State
after = record before { connections = []; sessions = session "s1" (some 400) ∷ [] }

Steps-IsSound_example : IsSound after
unfolding run
Steps-IsSound_example =
    Steps-IsSound {s = before} {t = after}
      (record { known = λ p h. h; distinct = refl; all_recorded = refl })
      (then_step (then_step stay (end_reported end_of_all (session "s1" (some 400) ∷ []) refl))
        (connections_swept (λ c. false)))

terminate_endpoint-filter_example :
    terminate_endpoint web [] [] "s1" (session "s1" none ∷ [])
    ≡ terminate_endpoint web [] [] "s1"
        (filter (λ r. can_read (checker web [] r.hostname)) (session "s1" none ∷ []))
terminate_endpoint-filter_example =
    terminate_endpoint-filter web [] [] "s1" (session "s1" none ∷ []) refl
