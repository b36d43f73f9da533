-- ===== src/Retention/Tests.antt =====
-- A run of a purge, and the theorem at a concrete input.
use pf.Base.{
  ℕ, ◌*◌, ◌≡◌, refl, not, Option, none, some, [], ◌∷◌, String, string_eq, nat_eq, filter, arith,
}
use pf.Live.Registry.{LiveSession, host}
use pf.Retention.{
  Settings, Entry, Tables, day_s, past, exempt_types, activity_types, retention_class, highest,
  without, insert_by_end, sort_by_end, audit_expired, activity_expired, entry_batch, entry_round,
  session_expired, session_batch, session_round, Run, purge,
}
use pf.Retention.Rounds.{rounds}
use pf.Retention.Laws.{expired}
use pf.Retention.Exact.{purge-expired}
use pf.Retention.References.{has, purge-has}

abbrev entry : ℕ → ℕ → String → Entry
entry id day type = record { id = id; at = day * day_s; type = type }

abbrev session : String → Option ℕ → LiveSession
session id ended_at = record {
  id = id;
  connection_id = "c1";
  identity_id = 3;
  hostname = "web";
  kind = host;
  session_id = id;
  started_at = 0;
  ended_at = ended_at;
  deadline = none;
}

-- Configuration is kept for 30 days and activity for 10, in batches of two, on day 100.
abbrev settings : Settings
settings = record {
  audit_retention_days = 30;
  activity_retention_days = 10;
  now = 100 * day_s;
  batch_size = 2;
}

abbrev tables : Tables
tables = record {
  entries =
      entry 1 20 "role-create"
      ∷ entry 2 20 "tenant-update"
      ∷ entry 3 75 "role-create"
      ∷ entry 4 75 "session-login"
      ∷ entry 5 89 "session-login"
      ∷ entry 6 95 "session-login"
      ∷ [];
  refs = record { id = 1; entry_id = 1 } ∷ record { id = 2; entry_id = 3 } ∷ [];
  object_names = record { id = 1; entry_id = 5 } ∷ [];
  sessions = session "s1" (some 9) ∷ session "s2" none ∷ session "s3" (some 8) ∷ [];
}

run : Unit {0}
unfolding past exempt_types activity_types retention_class highest without insert_by_end sort_by_end
    audit_expired activity_expired entry_batch entry_round session_expired session_batch
    session_round purge rounds string_eq nat_eq
run = tt

purge_run :
    purge settings tables
    ≡ some (record {
      tables = record {
        entries =
            entry 2 20 "tenant-update" ∷ entry 3 75 "role-create" ∷ entry 6 95 "session-login" ∷ [];
        refs = record { id = 2; entry_id = 3 } ∷ [];
        object_names = [];
        sessions = session "s2" none ∷ [];
      };
      result = record {
        audit_entries = 1;
        activity_entries = 2;
        refs = 1;
        object_names = 1;
        live_sessions = 2;
        highest_entry_id = some 5;
      };
    })
unfolding run
purge_run = refl

purge-expired_example :
    (r : Run) × (purge settings tables ≡ some r)
    × (r.tables.entries ≡ filter (λ e. not (expired settings e)) tables.entries)
    × (r.tables.sessions ≡ filter (λ s. not (session_expired settings s)) tables.sessions)
unfolding string_eq nat_eq
purge-expired_example = purge-expired settings (omega arith) tables refl refl

purge-has_example :
    (r : Run) × (purge settings tables ≡ some r)
    × (r.tables.refs ≡ filter (has r.tables.entries) tables.refs)
    × (r.tables.object_names ≡ filter (has r.tables.entries) tables.object_names)
unfolding nat_eq
purge-has_example = purge-has settings tables refl refl
