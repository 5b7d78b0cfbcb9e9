-- ===== src/Ranking/Deals/Result.antt =====
-- What a candidate that `_rank_candidate` of src/steam_agent/deal_ranking.py ranks is.
use steam_cli.Prelude.{ℕ, Option, none, some, List, ◌≡◌, refl, arith}
use steam_cli.Ranking.Deals.Evidence.{DealCandidate, DealComparisonContext}
use steam_cli.Ranking.Deals.Choice.{has_evidence}
use steam_cli.Ranking.Deals.Signals.{rungs, used_providers}
use steam_cli.Ranking.Deals.Rank.{
  RankedDealCandidate, rank_candidate, ranked_of, choice_of, attempts_of, offers_of, lows_of,
}

abbrev with_rungs :
    DealCandidate → DealComparisonContext → Option (List ℕ) → Option RankedDealCandidate
with_rungs c x none = none
with_rungs c x (some found) =
    some (ranked_of c (has_evidence (offers_of c) (lows_of c)) (choice_of c x) found)

-- The record is the one of the chosen evidence, and the rungs of its providers were found.
pub rank_candidate-ranked_of :
    (c : DealCandidate) (x : DealComparisonContext) (r : RankedDealCandidate)
    → rank_candidate c x ≡ some r
    → (found : List ℕ) × (rungs
          (attempts_of c)
          (used_providers (choice_of c x).offer (choice_of c x).low)
        ≡ some found)
      × (r ≡ ranked_of c (has_evidence (offers_of c) (lows_of c)) (choice_of c x) found)
unfolding rank_candidate
rank_candidate-ranked_of c x r h =
    go (rungs (attempts_of c) (used_providers (choice_of c x).offer (choice_of c x).low)) refl h
  where
    go :
        (o : Option (List ℕ))
        → rungs (attempts_of c) (used_providers (choice_of c x).offer (choice_of c x).low) ≡ o
        → with_rungs c x o ≡ some r
        → (found : List ℕ) × (rungs
              (attempts_of c)
              (used_providers (choice_of c x).offer (choice_of c x).low)
            ≡ some found)
          × (r ≡ ranked_of c (has_evidence (offers_of c) (lows_of c)) (choice_of c x) found)
    go none e k = cc
    go (some found) e k = (found, e, ground arith)
