-- ===== src/Live.antt =====
-- The registry of live sessions: src/provablyfine/api/model/live.py and endpoints/live.py.
pub mod Registry
pub mod Endpoints
pub mod Tests
