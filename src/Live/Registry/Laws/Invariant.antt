-- ===== src/Live/Registry/Laws/Invariant.antt =====
-- The registry over time: reports of hosts, and the certificates that are issued in between.
use mathlib.Core.Path.{subst}
use pf.Base.{
  ◌≡◌, refl, ◌∙◌, ap, Bool, true, false, ◌&&◌, ◌||◌, none, some, List, [], ◌∷◌, ◌++◌, map, String,
  ◌==◌, ==_refl, string_eq, nat_eq, option_eq, any, all, filter, leb, arith, Bool-cases,
  Option-cases, inl, inr, any-append, all-append,
}
use pf.Certificate.Tables.{SshConnection}
use pf.Live.Registry.{
  LiveSession, Report, read_connection, connection, conflicts, create_if_absent, start, reported,
  end,
}
use pf.Live.Registry.Laws.{distinct_ids, ended, end-ended}

-- The two tables, and all connections that were ever issued.
pub record State : Type 0 where
  pub connections : List SshConnection
  pub sessions : List LiveSession
  pub issued : List SshConnection

pub data Step : State → State → Type 0 where
  start_reported :
      {s : State} (id : String) (report : Report) (sessions : List LiveSession)
      → start id report s.connections s.sessions ≡ some sessions
      → Step s (record s { sessions = sessions })
  end_reported :
      {s : State} (report : Report) (sessions : List LiveSession)
      → end report s.connections s.sessions ≡ some sessions
      → Step s (record s { sessions = sessions })
  connection_issued :
      {s : State} (c : SshConnection)
      → Step s (record s { connections = s.connections ++ (c ∷ []); issued = c ∷ s.issued })
  connections_swept :
      {s : State} (keep : SshConnection → Bool)
      → Step s (record s { connections = filter keep s.connections })

pub data Steps : State → State → Type 0 where
  stay : {s : State} → Steps s s
  then_step : {s t u : State} → Steps s t → Step t u → Steps s u

-- The session is one of this connection.
abbrev belongs : LiveSession → SshConnection → Bool
belongs r c =
    c.connection_id == r.connection_id
    && (c.hostname == r.hostname && (c.identity_id == r.identity_id && c.deadline == r.deadline))

-- The session ended after it started, if it has ended.
abbrev in_order : LiveSession → Bool
in_order r = elim r.ended_at [ none ↦ true | some t ↦ leb r.started_at t ]

-- What is issued covers the row.
abbrev pub recorded : List SshConnection → LiveSession → Bool
recorded issued r = any (belongs r) issued && in_order r

pub record IsSound (s : State) : Type 0 where
  pub known : (p : SshConnection → Bool) → any p s.connections ≡ true → any p s.issued ≡ true
  pub distinct : distinct_ids s.sessions ≡ true
  pub all_recorded : all (recorded s.issued) s.sessions ≡ true

read_connection-any :
    (p : SshConnection → Bool) (id : String) (cs : List SshConnection) (c : SshConnection)
    → read_connection id cs ≡ some c
    → p c ≡ true
    → (any p cs ≡ true) × ((c.connection_id == id) ≡ true)
unfolding read_connection
read_connection-any p id [] c h k = absurd (ground arith)
read_connection-any p id (d ∷ cs) c h k = elim (Bool-cases (d.connection_id == id)) [
  | inl e ↦ (ground (arith, ap p), ground arith)
  | inr e ↦
      let (found, same) = read_connection-any p id cs c (ground arith) k in (ground arith, same)
]

connection-any :
    (p : SshConnection → Bool) (id hostname : String) (cs : List SshConnection) (c : SshConnection)
    → connection id hostname cs ≡ some c
    → p c ≡ true
    → (any p cs ≡ true) × ((c.connection_id == id) ≡ true) × ((c.hostname == hostname) ≡ true)
unfolding connection
connection-any p id hostname cs c h k = elim (Option-cases (read_connection id cs)) [
  | inl e ↦ absurd (ground arith)
  | inr (d, e) ↦
      let same : d ≡ c = ground arith in
      let (found, named) = read_connection-any p id cs c (ground arith) k in
      (found, named, ground (arith, same))
]

distinct_ids-append :
    (rs : List LiveSession) (r : LiveSession)
    → distinct_ids rs ≡ true
    → any (λ x. x.id == r.id) rs ≡ false
    → distinct_ids (rs ++ (r ∷ [])) ≡ true
distinct_ids-append [] r h k = refl
distinct_ids-append (x ∷ rs) r h k =
    ground (arith, distinct_ids-append rs r, any-append (λ y. x.id == y.id) rs (r ∷ []))

any-ended :
    (report : Report) (id : String) (rs : List LiveSession)
    → any (λ x. id == x.id) (map (ended report) rs) ≡ any (λ x. id == x.id) rs
any-ended report id [] = refl
any-ended report id (r ∷ rs) = elim (Bool-cases (reported report r)) [
  | inl e ↦ rw e (ap (λ b. id == r.id || b) (any-ended report id rs))
  | inr e ↦ rw e (ap (λ b. id == r.id || b) (any-ended report id rs))
]

distinct_ids-ended :
    (report : Report) (rs : List LiveSession)
    → distinct_ids (map (ended report) rs) ≡ distinct_ids rs
distinct_ids-ended report [] = refl
distinct_ids-ended report (r ∷ rs) = elim (Bool-cases (reported report r)) [
  | inl e ↦ rw (e, any-ended report r.id rs, distinct_ids-ended report rs) refl
  | inr e ↦ rw (e, any-ended report r.id rs, distinct_ids-ended report rs) refl
]

-- `recorded` looks at the connection, the host, the identity and the deadline of a session, which stay.
recorded-ended :
    (issued : List SshConnection) (report : Report) (r : LiveSession)
    → recorded issued r ≡ true
    → recorded issued (ended report r) ≡ true
recorded-ended issued report r h = elim (Bool-cases (reported report r)) [
  | inl e ↦ rw e (ground (arith, h))
  | inr e ↦ rw e h
]

all-recorded-ended :
    (issued : List SshConnection) (report : Report) (rs : List LiveSession)
    → all (recorded issued) rs ≡ true
    → all (recorded issued) (map (ended report) rs) ≡ true
all-recorded-ended issued report [] h = refl
all-recorded-ended issued report (r ∷ rs) h =
    ground (arith, recorded-ended issued report r, all-recorded-ended issued report rs)

-- Where `create_if_absent` inserts a row, its id is new.
fresh_id :
    (new : LiveSession) (rs : List LiveSession)
    → any (conflicts new) rs ≡ false
    → any (λ x. x.id == new.id) rs ≡ false
unfolding conflicts
fresh_id new [] h = refl
fresh_id new (r ∷ rs) h = ground (arith, fresh_id new rs)

create_if_absent-IsSound :
    (s : State) (new : LiveSession)
    → IsSound s
    → recorded s.issued new ≡ true
    → IsSound (record s { sessions = create_if_absent new s.sessions })
unfolding create_if_absent
create_if_absent-IsSound s new i h = elim (Bool-cases (any (conflicts new) s.sessions)) [
  | inl e ↦ rw e i
  | inr e ↦ rw e (record {
    known = i.known;
    distinct = distinct_ids-append s.sessions new i.distinct (fresh_id new s.sessions e);
    all_recorded =
        all-append (recorded s.issued) s.sessions (new ∷ []) ∙ ground (arith, i.all_recorded, h);
  })
]

start-IsSound :
    (s : State) (id : String) (report : Report) (sessions : List LiveSession)
    → IsSound s
    → start id report s.connections s.sessions ≡ some sessions
    → IsSound (record s { sessions = sessions })
unfolding start
start-IsSound s id report sessions i h =
    elim (Option-cases (connection report.connection_id report.hostname s.connections)) [
      | inl e ↦ absurd (ground arith)
      | inr (c, e) ↦
          let new : LiveSession = record {
            id = id;
            connection_id = report.connection_id;
            identity_id = c.identity_id;
            hostname = report.hostname;
            kind = report.kind;
            session_id = report.session_id;
            started_at = report.at;
            ended_at = none;
            deadline = c.deadline;
          } in
          let inserted : create_if_absent new s.sessions ≡ sessions = ground arith in
          let (_, named, for_host) =
            connection-any (λ d. true) report.connection_id report.hostname s.connections c e
              refl in
          let owned : belongs new c ≡ true =
            ground (arith, named, for_host, ==_refl c.identity_id, ==_refl c.deadline) in
          let (found, _, _) =
            connection-any (belongs new) report.connection_id report.hostname s.connections c e
              owned in
          subst (λ xs. IsSound (record s { sessions = xs })) inserted
            (create_if_absent-IsSound s new i (ground (arith, i.known (belongs new) found)))
    ]

end-IsSound :
    (s : State) (report : Report) (sessions : List LiveSession)
    → IsSound s
    → end report s.connections s.sessions ≡ some sessions
    → IsSound (record s { sessions = sessions })
unfolding end
end-IsSound s report sessions i h =
    elim (Option-cases (connection report.connection_id report.hostname s.connections)) [
      | inl e ↦ absurd (ground arith)
      | inr (c, e) ↦
          let rewritten : map (ended report) s.sessions ≡ sessions =
            ground (arith, end-ended report s.connections c s.sessions e i.distinct) in
          subst (λ xs. IsSound (record s { sessions = xs })) rewritten
            (record {
              known = i.known;
              distinct = distinct_ids-ended report s.sessions ∙ i.distinct;
              all_recorded = all-recorded-ended s.issued report s.sessions i.all_recorded;
            })
    ]

all-recorded-more :
    (c : SshConnection) (issued : List SshConnection) (rs : List LiveSession)
    → all (recorded issued) rs ≡ true
    → all (recorded (c ∷ issued)) rs ≡ true
all-recorded-more c issued [] h = refl
all-recorded-more c issued (r ∷ rs) h = ground (arith, all-recorded-more c issued rs)

any-filter_true :
    (p keep : SshConnection → Bool) (cs : List SshConnection)
    → any p (filter keep cs) ≡ true
    → any p cs ≡ true
any-filter_true p keep [] h = h
any-filter_true p keep (c ∷ cs) h = ground (arith, any-filter_true p keep cs)

Step-IsSound : {s t : State} → IsSound s → Step s t → IsSound t
Step-IsSound i (start_reported id report sessions e) = start-IsSound _ id report sessions i e
Step-IsSound i (end_reported report sessions e) = end-IsSound _ report sessions i e
Step-IsSound {s} i (connection_issued c) = record {
  known = λ p h. ground (arith, i.known p, any-append p s.connections (c ∷ []));
  distinct = i.distinct;
  all_recorded = all-recorded-more c s.issued s.sessions i.all_recorded;
}
Step-IsSound {s} i (connections_swept keep) = record {
  known = λ p h. i.known p (any-filter_true p keep s.connections h);
  distinct = i.distinct;
  all_recorded = i.all_recorded;
}

-- From a sound state on, whatever hosts report, and whatever connections are issued and swept in
-- between: no session id stands twice, every session is one of a connection that was issued, for its
-- host and its identity and with its deadline, and no session ended before it started.
pub Steps-IsSound : {s t : State} → IsSound s → Steps s t → IsSound t
Steps-IsSound i stay = i
Steps-IsSound i (then_step steps step) = Step-IsSound (Steps-IsSound i steps) step
