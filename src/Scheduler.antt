-- ===== src/Scheduler.antt =====
-- The schedulers: src/scheduler/. `Run` is the loop of mod.rs; the other children are its workers.
pub mod Run
pub mod Env
pub mod KeyRotation
pub mod Workflow
pub mod Jobs
pub mod Tokens
pub mod Retention
