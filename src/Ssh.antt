-- ===== src/Ssh.antt =====
-- SSH decisions of src/provablyfine/api/grant.py: which usernames, capabilities and commands a
-- caller gets on a host, and for how long.
pub mod Ttl
pub mod Capabilities
pub mod Commands
pub mod Decision
