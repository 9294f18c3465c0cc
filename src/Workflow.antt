-- ===== src/Workflow.antt =====
-- Workflows: src/util/workflow.rs and src/broker/workflow.rs.
pub mod Data
pub mod Context
pub mod SideEffect
