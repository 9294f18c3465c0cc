-- ===== src/Scheduler/Workflow.antt =====
-- The schedulers of workflows: src/scheduler/workflow/.
pub mod Select
pub mod NoExecutions
pub mod Stalls
pub mod PendingExecution
pub mod WaitedExecution
pub mod Advance
pub mod Dispatch
