-- ===== src/Refresh.antt =====
-- The refresh subsystem, src-tauri/src/application/refresh: scope planning, outcome bookkeeping,
-- the coordinator and its worker.
pub mod Planner
pub mod Outcome
pub mod Coordinator
pub mod Runs
pub mod Target
pub mod RequestPlan
pub mod Execution
mod Tests
