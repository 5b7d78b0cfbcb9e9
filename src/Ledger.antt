-- ===== src/Ledger.antt =====
-- The durable operation ledger, execution/ledger.py.
pub mod State
pub mod Table
pub mod Intake
pub mod Transition
pub mod Reads
pub mod Stable
pub mod Invariant
pub mod Outcomes
pub mod Expiry
pub mod History
pub mod RoundTrip
