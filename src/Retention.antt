-- ===== src/Retention.antt =====
-- `purge_tenant` of src/provablyfine/api/model/retention.py over the tables that it reads, with the
-- classes of src/provablyfine/api/model/audit_types.py. A table of entries stands in the order of its
-- ids. A `while True` is a number of rounds; where they are
-- not enough, there is no result.
pub mod Rounds
pub mod Batch
pub mod Laws
pub mod Exact
pub mod References
pub mod Tests
use pf.Base.{
  ℕ, zero, suc, ◌+◌, ◌*◌, max, ◌||◌, Bool, true, false, not, ◌&&◌, Option, none, some, List, [],
  ◌∷◌, ◌++◌, map, String, ◌==◌, string_eq, nat_eq, contains, any, length, filter, take,
  if◌then◌else◌, ltb, leb, is_some,
}
use pf.Live.Registry.{LiveSession}
use pf.Retention.Rounds.{rounds}

-- `DAY_S`
abbrev pub day_s : ℕ
day_s = 24 * 3600

-- `BATCH_SIZE`
abbrev pub default_batch_size : ℕ
default_batch_size = 5000

-- `ACTIVITY_TYPES`, as their joined types.
pub activity_types : List String
activity_types =
    "session-login" ∷ "session-logout" ∷ "session-set-role" ∷ "session-rejected"
    ∷ "account-key-rejected" ∷ "public-key-rejected" ∷ "live-session-terminate"
    ∷ "certificate-create-user" ∷ "certificate-create-host" ∷ []

-- `EXEMPT_TYPES`
pub exempt_types : List String
exempt_types = "tenant-update" ∷ "tenant-purge-expired" ∷ []

pub data RetentionClass : Type 0 where
  audit activity exempt : RetentionClass

pub retention_class : String → RetentionClass
retention_class type =
    if contains exempt_types type
    then exempt
    else if contains activity_types type
    then activity
    else audit

pub record Entry : Type 0 where
  pub id : ℕ
  pub at : ℕ
  pub type : String

-- A row about an entry: `audit_log_ref` by `entry_id`, `audit_log_object_name` by `first_entry_id`.
pub record Ref : Type 0 where
  pub id : ℕ
  pub entry_id : ℕ

pub record Tables : Type 0 where
  pub entries : List Entry
  pub refs : List Ref
  pub object_names : List Ref
  pub sessions : List LiveSession

pub record PurgeResult : Type 0 where
  pub audit_entries : ℕ
  pub activity_entries : ℕ
  pub refs : ℕ
  pub object_names : ℕ
  pub live_sessions : ℕ
  pub highest_entry_id : Option ℕ

pub record Run : Type 0 where
  pub tables : Tables
  pub result : PurgeResult

-- `max(ids + ([highest] if highest else []))`
pub highest : Option ℕ → List ℕ → Option ℕ
highest h [] = h
highest none (i ∷ ids) = highest (some i) ids
highest (some h) (i ∷ ids) = highest (some (max h i)) ids

-- `result.total`
pub total : PurgeResult → ℕ
total r = r.audit_entries + r.activity_entries + r.refs + r.object_names + r.live_sessions

-- Whether the run is recorded, by an entry of an exempt type.
pub is_recorded : Run → Bool
unfolding total
is_recorded r = not (total r.result == 0)

-- `PurgeResult()`, before the first transaction.
abbrev pub fresh : Tables → Run
fresh t = record {
  tables = t;
  result = record {
    audit_entries = 0;
    activity_entries = 0;
    refs = 0;
    object_names = 0;
    live_sessions = 0;
    highest_entry_id = none;
  };
}

-- The rows of a batch go.
unfoldable pub without : List ℕ → List Ref → List Ref
without ids = filter (λ r. not (contains ids r.entry_id))

-- The order of the ends of two sessions.
abbrev pub ends_by : LiveSession → LiveSession → Bool
ends_by s t = elim s.ended_at [
  | none ↦ true
  | some a ↦ elim t.ended_at [ none ↦ false | some b ↦ leb a b ]
]

-- `order_by="ended_at"`; an open session is in no page.
pub insert_by_end : LiveSession → List LiveSession → List LiveSession
insert_by_end s [] = s ∷ []
insert_by_end s (t ∷ ts) =
    let rest = insert_by_end s ts in if ends_by s t then s ∷ t ∷ ts else t ∷ rest

pub sort_by_end : List LiveSession → List LiveSession
unfolding insert_by_end
sort_by_end [] = []
sort_by_end (s ∷ ss) = insert_by_end s (sort_by_end ss)

-- The arguments of `purge_tenant`.
pub record Settings : Type 0 where
  pub audit_retention_days : ℕ
  pub activity_retention_days : ℕ
  pub now : ℕ
  pub batch_size : ℕ

-- `at < now - days * DAY_S`
unfoldable pub past : ℕ → ℕ → ℕ → Bool
past now days at = ltb (at + days * day_s) now

module _ (settings : Settings) where
  open settings use {audit_retention_days, activity_retention_days, now, batch_size}

  pub audit_expired : Entry → Bool
  unfolding past
  audit_expired e =
      past now audit_retention_days e.at && not (contains (activity_types ++ exempt_types) e.type)

  pub activity_expired : Entry → Bool
  unfolding past
  activity_expired e = past now activity_retention_days e.at && contains activity_types e.type

  -- `(audit + activity)[:batch_size]`
  pub entry_batch : List Entry → List Entry
  unfolding audit_expired activity_expired
  entry_batch entries = take batch_size (
      take batch_size (filter audit_expired entries)
      ++ take batch_size (filter activity_expired entries))

  -- A transaction of the first loop.
  pub entry_round : Run → Option Run
  unfolding entry_batch highest without
  entry_round r =
      let audit = take batch_size (filter audit_expired r.tables.entries) in
      let batch = entry_batch r.tables.entries in
      let ids = map (λ e. e.id) batch in
      let audit_ids = map (λ e. e.id) audit in
      let refs = without ids r.tables.refs in
      let object_names = without ids r.tables.object_names in
      if length batch == 0
      then none
      else some (record {
        tables = record r.tables {
          entries = filter (λ e. not (contains ids e.id)) r.tables.entries;
          refs = refs;
          object_names = object_names;
        };
        result = record r.result {
          audit_entries =
              r.result.audit_entries + length (filter (λ e. contains audit_ids e.id) batch);
          activity_entries =
              r.result.activity_entries
              + length (filter (λ e. not (contains audit_ids e.id)) batch);
          refs = r.result.refs + length (filter (λ f. contains ids f.entry_id) r.tables.refs);
          object_names =
              r.result.object_names
              + length (filter (λ f. contains ids f.entry_id) r.tables.object_names);
          highest_entry_id = highest r.result.highest_entry_id ids;
        };
      })

  -- `column.ended_at < activity_cutoff`, which an open session does not meet.
  pub session_expired : LiveSession → Bool
  unfolding past
  session_expired s = elim s.ended_at [ none ↦ false | some t ↦ past now activity_retention_days t ]

  pub session_batch : List LiveSession → List LiveSession
  unfolding sort_by_end session_expired
  session_batch sessions = take batch_size (sort_by_end (filter session_expired sessions))

  -- A transaction of the second loop.
  pub session_round : Run → Option Run
  unfolding session_batch
  session_round r =
      let batch = session_batch r.tables.sessions in
      let ids = map (λ s. s.id) batch in
      if length batch == 0
      then none
      else some (record {
        tables = record r.tables {
          sessions = filter (λ s. not (contains ids s.id)) r.tables.sessions;
        };
        result = record r.result {
          live_sessions =
              r.result.live_sessions + length (filter (λ s. contains ids s.id) r.tables.sessions);
        };
      })

  -- A transaction deletes at least one row, so that the rounds are enough: one more than there are
  -- rows.
  pub purge : Tables → Option Run
  unfolding entry_round session_round
  purge t = elim (rounds (suc (length t.entries)) entry_round (fresh t)) [
    | none ↦ none
    | some entries_gone ↦ rounds (suc (length t.sessions)) session_round entries_gone
  ]
