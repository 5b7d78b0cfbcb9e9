-- ===== src/Ranking/Storage.antt =====
-- src/steam_agent/storage_ranking.py: the two recipes. The integers are natural numbers, but for the
-- preference score, which has a sign.
pub mod Candidate
pub mod Gates
pub mod Reclaim
pub mod Travel
pub mod OrderFree
pub mod Ranked
pub mod Eligible
