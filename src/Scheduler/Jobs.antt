-- ===== src/Scheduler/Jobs.antt =====
-- The schedulers of jobs: src/scheduler/jobs/.
pub mod Cron
pub mod CronTimes
pub mod CronLimits
pub mod OneOff
pub mod Retry
