-- ===== src/Reaper/Run.antt =====
-- Everything that a run of the reaper computes with, for the tests.
use pf.Base.{string_eq, nat_eq, pair_eq}
use pf.Base.Text.{decimal}
use pf.Reaper.Names.{
  match_shape, is_connection_id, span_digits, after_digits, match_record_name, record_name,
}
use pf.Reaper.Record.{
  content, text_size, written_file, checked, with_number, read_fields, read_record, write_record,
}
use pf.Reaper.Processes.{
  children_of, sorted, visit, explore, descendants, climb, ancestors, first, find_ancestor,
  macos_connection, windows_connection,
}
use pf.Reaper.Requests.{
  strip_prefix, match_kill_name, kill_request_name, requested, expire_each, expire,
}
use pf.Reaper.Spool.{
  at_most, is_session_id, match_event_name, read_event, insert_name, sorted_names, write_event,
  read_events, forward_each, expire_files, forward, run_passes,
}
use pf.Reaper.Hook.{
  cut, ends_with, certificate_of, cert_from_auth_info, handle_open_session, handle_close_session,
}
use pf.Reaper.Logind.{
  letters, is_logind_id, session_record_name, write_session, match_session_name, session_ids,
  claim_each, tick_logind,
}
use pf.Reaper.Terminator.{register_session, request_kill, track_tunnel, untrack_tunnel, terminate}
use pf.Reaper.Sessions.{forget, drop, enforce, watch, handle}
use pf.Reaper.Ticks.{handle_named, handle_each, forget_each, expire_requests, tick, state_after}

unfoldable pub run : Unit {0}
unfolding string_eq nat_eq pair_eq decimal match_shape is_connection_id span_digits after_digits
    match_record_name record_name checked with_number read_fields read_record write_record content
    text_size written_file children_of sorted visit explore descendants climb ancestors first
    find_ancestor macos_connection windows_connection strip_prefix match_kill_name kill_request_name
    requested expire_each expire forget drop enforce watch handle handle_named handle_each
    forget_each expire_requests tick state_after at_most is_session_id match_event_name read_event
    insert_name sorted_names write_event read_events forward_each expire_files forward run_passes
    cut ends_with certificate_of cert_from_auth_info handle_open_session handle_close_session
    letters is_logind_id session_record_name write_session match_session_name session_ids claim_each
    tick_logind register_session request_kill track_tunnel untrack_tunnel terminate
run = tt
