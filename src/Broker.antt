-- ===== src/Broker.antt =====
-- The broker: src/broker/.
pub mod Record
pub mod Once
pub mod HandOut
pub mod Fair
pub mod Unlock
pub mod States
pub mod Life
pub mod Spec
pub mod Sent
pub mod Drones
pub mod Reports
