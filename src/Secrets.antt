-- ===== src/Secrets.antt =====
-- The secret storage: src/secrets.rs and the scheduler of src/scheduler/util/key_rotate.rs.
pub mod KeyRing
pub mod Parse
pub mod Reread
pub mod Secret
pub mod Roundtrip
