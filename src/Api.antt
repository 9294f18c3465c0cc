-- ===== src/Api.antt =====
-- The HTTP API: src/api/.
pub mod Base
pub mod Models
pub mod Executions
pub mod Limits
pub mod LimitLaws
pub mod Jobs
pub mod Cron
pub mod Tenants
pub mod Signing
