-- ===== src/Ssh/Decision/Run.antt =====
-- Everything that a run of `SSHChecker` computes with, for use in `unfolding`.
use pf.Base.{string_eq, nat_eq, option_eq}
use pf.Grant.Permission.{capability_eq}
use pf.Ssh.Ttl.{ttl_max, ttl_min, deadline}
use pf.Ssh.Capabilities
use pf.Ssh.Commands
use pf.Ssh.Decision.{
  init, matching, covering, under_ceiling, granted_decision, decide_covers, decide, covers_username,
  covers_unnamed_username, candidate_usernames, add_grant, add_username, resolve_username,
  list_decisions, capabilities,
}

unfoldable pub run : Unit {0}
unfolding init matching covering under_ceiling granted_decision decide_covers decide covers_username
    covers_unnamed_username candidate_usernames add_grant add_username resolve_username
    list_decisions Capabilities.allowed_by Capabilities.intersect Capabilities.subtract
    Commands.allowed_by Commands.intersect Commands.subtract Commands.permits Commands.covered_union
    Commands.covered_intersection Commands.covered_deny ttl_max ttl_min deadline capability_eq
    string_eq nat_eq option_eq Capabilities.capabilities capabilities
run = tt
