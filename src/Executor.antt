-- ===== src/Executor.antt =====
-- The executor of one authorized operation, execution/executor.py.
pub mod World
pub mod Restore
pub mod Launch
pub mod Intake
pub mod Content
pub mod Adopt
pub mod Lease
pub mod Reconcile
pub mod Recovery
pub mod Paths
pub mod Runs
pub mod Unstarted
pub mod Dispatch
