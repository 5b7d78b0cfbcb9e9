-- ===== src/Policy.antt =====
-- The owner's execution policy, execution/policy.py.
pub mod Toml
pub mod Load
pub mod Grants
