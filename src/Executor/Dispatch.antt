-- ===== src/Executor/Dispatch.antt =====
-- A launch is sent at most once: the invariant, the paths that keep it, and the runs of the executor.
pub mod Invariant
pub mod Once
pub mod Runs
