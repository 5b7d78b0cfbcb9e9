-- ===== src/Adoption.antt =====
-- The adoption journal of src/steam_agent/execution/content_plane.py: the durable swap of one
-- manifest, and its recovery.
pub mod Disk
pub mod Adopt
pub mod Reconcile
pub mod Calls
pub mod Phases
pub mod Restoring
pub mod Recovery
pub mod Uses
pub mod Crash
pub mod Clearing
pub mod Refusals
