-- ===== src/Drone/Store.antt =====
-- The drone's SQLite store: src/drone/store/executions.rs over schema_sqlite.sql.
pub mod Rows
pub mod Ops
pub mod Decode
pub mod Lifecycle
pub mod Cleanup
pub mod Claim
