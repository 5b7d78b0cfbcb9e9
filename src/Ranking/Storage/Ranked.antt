-- ===== src/Ranking/Storage/Ranked.antt =====
-- What the order of a ranking of src/steam_agent/storage_ranking.py means.
use steam_cli.Prelude.{ℕ, ◌≤◌, Option, none, some, List, [], ◌∷◌, ◌≡◌, All}
use steam_cli.Ranking.Storage.Reclaim.{ReclaimResult, eligibility_order}

-- `a` may stand before `b`: no less eligible, and among equally eligible results none that frees
-- more, or a known amount, comes later.
pub record IsBefore (a b : ReclaimResult) : Type 0 where
  pub eligibility : eligibility_order a.eligibility ≤ eligibility_order b.eligibility
  pub known :
      eligibility_order a.eligibility ≡ eligibility_order b.eligibility
      → a.reclaim_bytes ≡ none
      → b.reclaim_bytes ≡ none
  pub larger :
      (m n : ℕ)
      → eligibility_order a.eligibility ≡ eligibility_order b.eligibility
      → a.reclaim_bytes ≡ some m
      → b.reclaim_bytes ≡ some n
      → n ≤ m

abbrev pub IsRanked : List ReclaimResult → Type 0
IsRanked [] = Unit
IsRanked (r ∷ rs) = All (IsBefore r) rs × IsRanked rs

abbrev IsLarger : Option ℕ → Option ℕ → Type 0
IsLarger s t = (s ≡ none → t ≡ none) × ((m n : ℕ) → s ≡ some m → t ≡ some n → n ≤ m)
