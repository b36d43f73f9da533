-- ===== src/Signature.antt =====
-- Signed requests: src/provablyfine/api/signature.py.
pub mod NonceStore
pub mod Message
pub mod Verify
pub mod Session
pub mod Tests
