-- ===== src/Requests.antt =====
-- Direct request intake, execution/agent_requests.py, with `_floor_denial` of
-- execution/broker_main.py.
pub mod Intent
pub mod Intake
pub mod Bound
pub mod Repeated
pub mod Reuse
pub mod Consent
pub mod Readiness
pub mod Ready
pub mod Receipts
pub mod Held
pub mod Retry
