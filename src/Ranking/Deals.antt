-- ===== src/Ranking/Deals.antt =====
-- src/steam_agent/deal_evidence.py and src/steam_agent/deal_ranking.py.
pub mod Evidence
pub mod Choice
pub mod Signals
pub mod Rank
pub mod Result
pub mod OrderFree
pub mod Comparable
pub mod Bounds
pub mod Buckets
pub mod Providers
pub mod Rungs
