-- ===== src/Ranking/Deals/Rank.antt =====
-- `_rank_candidate`, `_sort_key` and `rank_deals` of src/steam_agent/deal_ranking.py.
use steam_cli.Prelude.{
  ℕ, Bool, if◌then◌else◌, Option, none, some, List, [], ◌∷◌, ◌++◌, map, String, ◌⊎◌, inl, inr,
}
use steam_cli.Ranking.Order.{pos, neg, Key, number, nat, text}
use steam_cli.Ranking.Sort.{sort_by}
use steam_cli.Ranking.Reorder.{is_unique}
use steam_cli.Ranking.Deals.Evidence.{
  OfferEvidence, HistoricalLowSummary, DealEvidenceSnapshot, ProviderAttempt, DealCandidate,
  DealComparisonContext, max_signed_64,
}
use steam_cli.Ranking.Deals.Choice.{
  EvidenceGrade, exact, normalized, degraded, ungraded, Choice, choose, has_evidence,
}
use steam_cli.Ranking.Deals.Signals.{
  DealBucket, at_or_below_low, within_5_percent, discounted, current_only, noncomparable,
  unknown_bucket, bucket_of, discount_bps, distance_above_low, bucket_reason, free_reason,
  grade_tradeoff, free_low_tradeoff, used_providers, rungs, least,
}

pub record RankedDealCandidate : Type 0 where
  pub steam_appid : ℕ
  pub bucket : DealBucket
  pub evidence_grade : EvidenceGrade
  pub current_offer : Option OfferEvidence
  pub historical_low : Option HistoricalLowSummary
  pub discount_bps : Option ℕ
  pub distance_above_low_bps : Option ℕ
  pub reasons : List String
  pub tradeoffs : List String
  pub fallback_rung : Option ℕ
  pub attempted_providers : List ProviderAttempt
  pub used_providers : List String

abbrev pub gather {ℓ} :
    {A : Type ℓ} → (DealEvidenceSnapshot → List A) → List DealEvidenceSnapshot → List A
gather part [] = []
gather part (s ∷ ss) = part s ++ gather part ss

abbrev pub offers_of : DealCandidate → List OfferEvidence
offers_of c = gather (λ s. s.offers) c.snapshots

abbrev pub lows_of : DealCandidate → List HistoricalLowSummary
lows_of c = gather (λ s. s.history_lows) c.snapshots

abbrev pub choice_of : DealCandidate → DealComparisonContext → Choice
choice_of c x = choose c.steam_appid (offers_of c) (lows_of c) x

abbrev pub discount_of : Option OfferEvidence → Option ℕ
discount_of none = none
discount_of (some offer) = discount_bps offer.price offer.regular_price

abbrev pub distance_of : Option OfferEvidence → Option HistoricalLowSummary → Option ℕ
distance_of (some offer) (some low) = distance_above_low offer.price low.price
distance_of _ _ = none

unfoldable pub attempt_key : ProviderAttempt → Key
unfolding text
attempt_key a = nat a.fallback_rung ∷ text a.provider ∷ []

-- The attempts in the order of their rungs.
abbrev pub attempts_of : DealCandidate → List ProviderAttempt
attempts_of c = sort_by attempt_key c.provider_attempts

-- The record that is built once the rungs are known.
unfoldable pub ranked_of : DealCandidate → Bool → Choice → List ℕ → RankedDealCandidate
unfolding bucket_of discount_bps distance_above_low attempt_key sort_by used_providers
ranked_of c evidence k found =
    let bucket = bucket_of evidence k.offer k.low (discount_of k.offer) in
    record {
      steam_appid = c.steam_appid;
      bucket = bucket;
      evidence_grade = k.grade;
      current_offer = k.offer;
      historical_low = k.low;
      discount_bps = discount_of k.offer;
      distance_above_low_bps = distance_of k.offer k.low;
      reasons = (bucket_reason bucket ∷ []) ++ free_reason k.offer;
      tradeoffs = grade_tradeoff k.grade ++ free_low_tradeoff k.offer k.low;
      fallback_rung = least found;
      attempted_providers = attempts_of c;
      used_providers = used_providers k.offer k.low;
    }

-- `none` is the `KeyError` of a used provider that has no attempt.
unfoldable pub rank_candidate : DealCandidate → DealComparisonContext → Option RankedDealCandidate
unfolding choose rungs used_providers ranked_of
rank_candidate c x =
    let k = choice_of c x in
    elim (rungs (attempts_of c) (used_providers k.offer k.low)) [
      | none ↦ none
      | some found ↦ some (ranked_of c (has_evidence (offers_of c) (lows_of c)) k found)
    ]

abbrev grade_order : EvidenceGrade → ℕ
grade_order exact = 0
grade_order normalized = 1
grade_order degraded = 2
grade_order ungraded = 3

abbrev bucket_order : DealBucket → ℕ
bucket_order at_or_below_low = 0
bucket_order within_5_percent = 1
bucket_order discounted = 2
bucket_order current_only = 3
bucket_order noncomparable = 4
bucket_order unknown_bucket = 5

-- An unknown discount is -1, an unknown distance the greatest number.
unfoldable pub sort_key : RankedDealCandidate → Key
sort_key r =
    nat (grade_order r.evidence_grade)
    ∷ nat (bucket_order r.bucket)
    ∷ number (elim r.discount_bps [ none ↦ pos 1 | some d ↦ neg d ])
    ∷ nat (elim r.distance_above_low_bps [ none ↦ max_signed_64 | some d ↦ d ])
    ∷ nat r.steam_appid
    ∷ []

pub data DealFault : Type 0 where
  repeated_appid key_error : DealFault

pub record DealRanking : Type 0 where
  pub context : DealComparisonContext
  pub candidates : List RankedDealCandidate

-- The list comprehension over the candidates.
unfoldable pub rank_each :
    DealComparisonContext → List DealCandidate → Option (List RankedDealCandidate)
unfolding rank_candidate
rank_each x [] = some []
rank_each x (c ∷ cs) = elim (rank_candidate c x) [
  | none ↦ none
  | some r ↦ elim (rank_each x cs) [ none ↦ none | some rs ↦ some (r ∷ rs) ]
]

abbrev pub sorted_ranking :
    DealComparisonContext → Option (List RankedDealCandidate) → DealFault ⊎ DealRanking
sorted_ranking x none = inl key_error
sorted_ranking x (some rs) = inr (record { context = x; candidates = sort_by sort_key rs })

unfoldable pub rank_deals : List DealCandidate → DealComparisonContext → DealFault ⊎ DealRanking
unfolding is_unique rank_each sort_key sort_by
rank_deals cs x =
    if is_unique (map (λ c. c.steam_appid) cs)
    then sorted_ranking x (rank_each x cs)
    else inl repeated_appid
