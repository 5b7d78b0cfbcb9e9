-- ===== src/Ranking.antt =====
-- Rankings that do not depend on the order of their input: Python's `sorted` and `min` with a key,
-- and the two recipes of src/steam_agent/storage_ranking.py and the deal ranking of
-- src/steam_agent/deal_ranking.py.
pub mod Order
pub mod Sort
pub mod Reorder
pub mod Checks
pub mod Storage
pub mod Deals
