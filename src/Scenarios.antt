-- ===== src/Scenarios.antt =====
-- Runs of the broker on concrete input: the tests, and each result applied where its conditions hold.
pub mod Worlds
mod Tests
mod Examples
mod Runs
mod Storage
mod Deals
mod Adoptions
mod Preflights
mod Receipts
mod Compatibility
