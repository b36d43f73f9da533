-- ===== src/Live/Registry.antt =====
-- `start`, `end` and `read_all` of src/provablyfine/api/model/live.py over the tables that they read.
-- The id of a new session is an argument.
pub mod Laws
pub mod Run
use pf.Base.{
  ℕ, max, Bool, true, false, not, ◌&&◌, ◌||◌, Option, none, some, List, [], ◌∷◌, ◌++◌, map, String,
  ◌==◌, string_eq, nat_eq, any, filter, if◌then◌else◌, is_some, Eq,
}
use pf.Certificate.Tables.{SshConnection}

pub data Kind : Type 0 where
  relay host : Kind

abbrev pub same_kind : Kind → Kind → Bool
same_kind relay relay = true
same_kind host host = true
same_kind _ _ = false

pub record LiveSession : Type 0 where
  pub id : String
  pub connection_id : String
  pub identity_id : ℕ
  pub hostname : String
  pub kind : Kind
  pub session_id : String
  pub started_at : ℕ
  pub ended_at : Option ℕ
  pub deadline : Option ℕ

-- The arguments of `start` and `end`.
pub record Report : Type 0 where
  pub connection_id : String
  pub hostname : String
  pub kind : Kind
  pub session_id : String
  pub at : ℕ

-- `ssh_connection.read_one(connection_id=…)`
read_connection : String → List SshConnection → Option SshConnection
read_connection connection_id [] = none
read_connection connection_id (c ∷ connections) =
    let rest = read_connection connection_id connections in
    if c.connection_id == connection_id then some c else rest

-- `_connection`: `none` is `UnknownConnection`.
unfoldable pub connection : String → String → List SshConnection → Option SshConnection
unfolding read_connection
connection connection_id hostname connections = elim (read_connection connection_id connections) [
  | none ↦ none
  | some c ↦ if c.hostname == hostname then some c else none
]

-- The row that `create_if_absent` meets: the primary key, or the unique index.
conflicts : LiveSession → LiveSession → Bool
conflicts new r =
    r.id == new.id
    || (r.connection_id == new.connection_id
        && (same_kind r.kind new.kind && r.session_id == new.session_id))

create_if_absent : LiveSession → List LiveSession → List LiveSession
unfolding conflicts
create_if_absent new sessions =
    if any (conflicts new) sessions then sessions else sessions ++ (new ∷ [])

unfoldable pub start :
    String → Report → List SshConnection → List LiveSession → Option (List LiveSession)
unfolding connection create_if_absent
start id report connections sessions =
    elim (connection report.connection_id report.hostname connections) [
      | none ↦ none
      | some c ↦ some (
          create_if_absent
            (record {
              id = id;
              connection_id = report.connection_id;
              identity_id = c.identity_id;
              hostname = report.hostname;
              kind = report.kind;
              session_id = report.session_id;
              started_at = report.at;
              ended_at = none;
              deadline = c.deadline;
            })
            sessions)
    ]

-- The sessions that a report ends: still open, of this connection and host, and of this session id
-- where the report has one.
pub reported : Report → LiveSession → Bool
reported report r =
    not (is_some r.ended_at)
    && (r.connection_id == report.connection_id
        && (same_kind r.kind report.kind
            && (r.hostname == report.hostname
                && (report.session_id == "" || r.session_id == report.session_id))))

-- `table.update(ended_at=max(at, row.started_at)).where(id=row.id, ended_at=None)`
close : ℕ → LiveSession → LiveSession → LiveSession
close at row r =
    if r.id == row.id && not (is_some r.ended_at)
    then record r { ended_at = some (max at row.started_at) }
    else r

close_all : ℕ → List LiveSession → List LiveSession → List LiveSession
unfolding close
close_all at [] sessions = sessions
close_all at (row ∷ rows) sessions = close_all at rows (map (close at row) sessions)

unfoldable pub end : Report → List SshConnection → List LiveSession → Option (List LiveSession)
unfolding connection reported close_all
end report connections sessions =
    elim (connection report.connection_id report.hostname connections) [
      | none ↦ none
      | some c ↦ some (close_all report.at (filter (reported report) sessions) sessions)
    ]

-- `read_one`
unfoldable pub read_one : String → List LiveSession → Option LiveSession
read_one id [] = none
read_one id (r ∷ sessions) = let rest = read_one id sessions in if r.id == id then some r else rest

-- The filters of `read_all`; the order of its rows is left out.
unfoldable pub selected : Option String → Option ℕ → Option Bool → LiveSession → Bool
selected hostname identity_id active r =
    elim hostname [ none ↦ true | some h ↦ r.hostname == h ]
    && (elim identity_id [ none ↦ true | some i ↦ r.identity_id == i ] && elim active [
      | none ↦ true
      | some true ↦ not (is_some r.ended_at)
      | some false ↦ is_some r.ended_at
    ])
