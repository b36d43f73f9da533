-- ===== src/Naming.antt =====
-- The grants that name an object that is deleted: src/provablyfine/api/model/identity_grants.py,
-- bastion_grants.py and tag_grants.py, and `referenced_ids` of model/grant.py.
pub mod References
pub mod Names
pub mod Unchanged
pub mod Store
pub mod Remove
mod Tests
