-- ===== src/Scheduler/Retention.antt =====
-- The schedulers that wipe old jobs: src/scheduler/retention/.
pub mod Wipe
pub mod Scheduled
pub mod OneOff
