-- ===== src/Reaper.antt =====
-- The session reaper: src/provablyfine/cli/pf/openssh_session_reaper.py and host/procs.py.
pub mod Names
pub mod Record
pub mod Processes
pub mod Requests
pub mod Spool
pub mod Hook
pub mod Logind
pub mod Terminator
pub mod Sessions
pub mod Ticks
mod Run
mod Tests
mod HostTests
