-- ===== src/Tests.antt =====
-- The theorems at concrete inputs.
mod Fixtures
mod Store
mod Secrets
mod Parse
mod Jobs
mod Cron
mod Broker
mod HandOut
mod Drone
mod Api
mod Signing
mod Retention
mod Workflows
