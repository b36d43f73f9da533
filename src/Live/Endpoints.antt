-- ===== src/Live/Endpoints.antt =====
-- The endpoints of src/provablyfine/api/endpoints/live.py: who may see and end a session, and the
-- reports of a host about its own sessions.
pub mod Laws
use pf.Base.{
  ℕ, min, Bool, true, false, not, ◌&&◌, ◌||◌, Option, none, some, List, [], ◌∷◌, ◌++◌, String, ◌==◌,
  string_eq, any, filter, if◌then◌else◌, is_some, or_empty,
}
use Prim.Native.String.{◌++◌ as ◌<>◌}
use pf.Http.{Outcome, ok, fail, fail_if, or_fail, assert, ◌>>=◌, ◌>>◌}
use pf.Grant.{LiveGrant}
use pf.Checker.{Checker}
use pf.Checker.LiveChecker.{init, can_read, can_terminate, live_read_somewhere}
use pf.Certificate.Tables.{Identity, Caller, SshConnection}
use pf.Certificate.UserSigning.{read_name}
use pf.Live.Registry.{Kind, LiveSession, Report, start, end, read_one, selected}

-- `_host_tags().get(hostname, [])`: names are unique.
unfoldable pub host_tags : String → List Identity → List ℕ
host_tags hostname identities = elim (read_name hostname identities) [
  | none ↦ []
  | some i ↦ i.tag_id_list
]

-- `grants.live(…)`
unfoldable pub checker : Caller → List Identity → String → Checker LiveGrant
unfolding host_tags
checker caller identities hostname =
    init caller.boundaries caller.roles (some (host_tags hostname identities))

-- The rows that the caller may read; their order is left out.
unfoldable pub list_endpoint :
    Caller
    → List Identity
    → Option String
    → Option ℕ
    → Option Bool
    → List LiveSession
    → Outcome (List LiveSession)
unfolding checker
list_endpoint caller identities hostname identity_id active sessions = do
  assert (any (λ b. true) caller.boundaries)
  fail_if (not (live_read_somewhere caller.roles)) 403 "Not allowed to read live sessions"
  ok (
      filter (λ r. can_read (checker caller identities r.hostname))
        (filter (selected hostname identity_id active) sessions))

-- The command that waits for the commit, and its entry in the audit log.
pub record Termination : Type 0 where
  pub live_session_id : String
  pub connection_id : String
  pub hostname : String
  pub kind : Kind
  pub session_id : String
  pub urls : List String

unfoldable pub terminate_endpoint :
    Caller → List Identity → List String → String → List LiveSession → Outcome Termination
unfolding checker
terminate_endpoint caller identities urls id sessions = do
  assert (any (λ b. true) caller.boundaries)
  r ← or_fail (read_one id sessions) 404 "Live session does not exist"
  fail_if (is_some r.ended_at || not (can_read (checker caller identities r.hostname))) 404
      "Live session does not exist"
  fail_if (not (can_terminate (checker caller identities r.hostname))) 403
      "Not allowed to end live sessions"
  ok (record {
    live_session_id = r.id;
    connection_id = r.connection_id;
    hostname = r.hostname;
    kind = r.kind;
    session_id = r.session_id;
    urls = urls;
  })

-- `errors[-1] if errors else 'no bastion'`
last_error : String → List String → String
last_error e [] = e
last_error e (e' ∷ errors) = last_error e' errors

-- The loop of `_send_to_first_bastion`; `send` says with what error a bastion fails, if it does.
send_loop : (String → Option String) → List String → List String → Outcome (Unit {0})
unfolding last_error
send_loop send [] errors =
    fail 502 ("Unable to end the session: " <> last_error "no bastion" errors)
send_loop send (url ∷ urls) errors = elim (send url) [
  | none ↦ ok tt
  | some e ↦ send_loop send urls (errors ++ (e ∷ []))
]

unfoldable pub send_to_first_bastion : (String → Option String) → List String → Outcome (Unit {0})
unfolding send_loop
send_to_first_bastion send urls = send_loop send urls []

-- `LiveReportRequest`
pub record LiveReport : Type 0 where
  pub connection_id : String
  pub kind : Kind
  pub session_id : String
  pub at : ℕ

-- The report that the host makes: a time in the future counts as now.
unfoldable pub report_of : Caller → ℕ → LiveReport → Report
report_of caller now request = record {
  connection_id = request.connection_id;
  hostname = caller.identity.name;
  kind = request.kind;
  session_id = request.session_id;
  at = min request.at now;
}

unfoldable pub start_endpoint :
    Caller
    → ℕ
    → String
    → LiveReport
    → List SshConnection
    → List LiveSession
    → Outcome (List LiveSession)
unfolding report_of
start_endpoint caller now id request connections sessions =
    or_fail (start id (report_of caller now request) connections sessions) 403 "Forbidden"

unfoldable pub end_endpoint :
    Caller → ℕ → LiveReport → List SshConnection → List LiveSession → Outcome (List LiveSession)
unfolding report_of
end_endpoint caller now request connections sessions =
    or_fail (end (report_of caller now request) connections sessions) 403 "Forbidden"
