-- ===== src/Drone.antt =====
-- The drone, which executes jobs: src/drone/.
pub mod Store
pub mod Address
pub mod Execute
pub mod Body
pub mod Answer
pub mod Timing
pub mod Sync
