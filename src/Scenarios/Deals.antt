-- ===== src/Scenarios/Deals.antt =====
-- A ranked deal, and the results of Ranking.Deals applied to it.
use mathlib.Core.List.{Permᴰ}
use steam_cli.Prelude.{
  ℕ, ◌≤◌, true, none, some, [], ◌∷◌, String, map, ◌≡◌, refl, inl, inr, count_where, ◌==◌,
}
use steam_cli.Ranking.Reorder.{is_unique}
use steam_cli.Ranking.Deals.Evidence.{
  exact_product, official, ready, Money, OfferEvidence, HistoricalLowSummary, DealCandidate,
  DealComparisonContext, ProductIdentity, accepts_candidate,
}
use steam_cli.Ranking.Deals.Choice.{exact}
use steam_cli.Ranking.Deals.Signals.{
  within_five_percent, distance_above_low, discount_bps, within_5_percent,
}
use steam_cli.Ranking.Deals.Rank.{
  RankedDealCandidate, DealRanking, rank_candidate, ranked_of, rank_deals, key_error, offers_of,
  lows_of,
}
use steam_cli.Ranking.Deals.OrderFree.{rank_deals_reordered, rank_deals-appids}
use steam_cli.Ranking.Deals.Comparable.{IsSupported, rank_candidate-IsSupported}
use steam_cli.Ranking.Deals.Buckets.{BucketClaim, rank_candidate-BucketClaim}
use steam_cli.Ranking.Deals.Bounds.{
  IsDiscount, discount_bps-IsDiscount, within_five_percent-distance_above_low,
}
use steam_cli.Ranking.Deals.Rungs.{rank_deals_found}

abbrev dollars : ℕ → Money
dollars cents = record { amount_minor = cents; currency = "USD"; country = "US" }

abbrev game : ℕ → ProductIdentity
game appid = record { provider_product_id = "product"; steam_appid = appid; mapping = "exact" }

abbrev offer_at : String → ℕ → ℕ → OfferEvidence
offer_at provider appid cents = record {
  provider = provider;
  product = game appid;
  price = dollars cents;
  regular_price = some (dollars 2000);
  discount_percent = none;
  store_class = official;
  observed_at = "2026-01-01";
  provider_url = "https://example.com";
  comparability = exact_product;
  seller_id = none;
}

abbrev low_at : ℕ → ℕ → HistoricalLowSummary
low_at appid cents = record {
  provider = "alpha";
  product = game appid;
  price = dollars cents;
  observed_at = "2026-01-01";
  effective_at = none;
  scope = "all_time_official_stores";
  provider_url = "https://example.com";
  comparability = exact_product;
}

abbrev official_dollars : DealComparisonContext
official_dollars = record {
  country = "US";
  currency = "USD";
  store_class = official;
  history_scope = "all_time_official_stores";
}

-- One snapshot of the provider "alpha", with an offer of a provider.
abbrev deal_from : String → ℕ → ℕ → DealCandidate
deal_from provider appid cents = record {
  steam_appid = appid;
  snapshots =
      record {
        provider = "alpha";
        product = game appid;
        offers = offer_at provider appid cents ∷ [];
        history_lows = low_at appid 1000 ∷ [];
        observed_at = "2026-01-01";
        limitations = [];
      }
      ∷ [];
  provider_attempts =
      record { provider = "alpha"; fallback_rung = 0; status = ready; error_code = none } ∷ [];
}

abbrev deal : DealCandidate
deal = deal_from "alpha" 10 1050

abbrev ranked_deal : RankedDealCandidate
ranked_deal =
    ranked_of deal true
      (record {
        offer = some (offer_at "alpha" 10 1050);
        low = some (low_at 10 1000);
        grade = exact;
      })
      (0 ∷ [])

deal_ranked : rank_candidate deal official_dollars ≡ some ranked_deal
unfolding rank_candidate
deal_ranked = refl

deal_bucket : ranked_deal.bucket ≡ within_5_percent
unfolding ranked_of
deal_bucket = refl

-- The constructor accepts an offer whose provider was not attempted; the ranking raises `KeyError`.
stray_accepted : accepts_candidate (deal_from "beta" 10 1050) ≡ true
unfolding accepts_candidate
stray_accepted = refl

stray_raises : rank_deals (deal_from "beta" 10 1050 ∷ []) official_dollars ≡ inl key_error
unfolding rank_deals
stray_raises = refl

abbrev one_deal : DealRanking
one_deal = record { context = official_dollars; candidates = ranked_deal ∷ [] }

one_ranked : rank_deals (deal ∷ []) official_dollars ≡ inr one_deal
unfolding rank_deals
one_ranked = refl

rank_deals_reordered_example :
    rank_deals (deal ∷ deal_from "alpha" 20 500 ∷ []) official_dollars
    ≡ rank_deals (deal_from "alpha" 20 500 ∷ deal ∷ []) official_dollars
rank_deals_reordered_example = rank_deals_reordered official_dollars (Permᴰ.swap refl refl)

rank_deals-appids_example :
    Permᴰ (map (λ q. q.steam_appid) one_deal.candidates) (10 ∷ [])
    × ((n : ℕ) → count_where (λ q. q.steam_appid == n) one_deal.candidates ≤ 1)
rank_deals-appids_example = rank_deals-appids (deal ∷ []) official_dollars one_deal one_ranked

rank_candidate-IsSupported_example :
    IsSupported 10
      (offers_of deal)
      (lows_of deal)
      official_dollars
      (record {
        offer = ranked_deal.current_offer;
        low = ranked_deal.historical_low;
        grade = ranked_deal.evidence_grade;
      })
      (low_at 10 1000)
unfolding ranked_of
rank_candidate-IsSupported_example =
    rank_candidate-IsSupported deal official_dollars ranked_deal (low_at 10 1000) deal_ranked refl

rank_candidate-BucketClaim_example :
    BucketClaim ranked_deal.bucket ranked_deal.current_offer ranked_deal.historical_low
rank_candidate-BucketClaim_example =
    rank_candidate-BucketClaim deal official_dollars ranked_deal deal_ranked

half_price : discount_bps (dollars 1000) (some (dollars 2000)) ≡ some 5000
unfolding discount_bps
half_price = refl

discount_bps-IsDiscount_example : IsDiscount (dollars 1000) (some (dollars 2000)) 5000
discount_bps-IsDiscount_example =
    discount_bps-IsDiscount (dollars 1000) (some (dollars 2000)) 5000 half_price

near_low : within_five_percent (dollars 1050) (dollars 1000) ≡ true
unfolding within_five_percent
near_low = refl

within_five_percent-distance_above_low_example :
    (d : ℕ) × (distance_above_low (dollars 1050) (dollars 1000) ≡ some d) × (d ≤ 500)
within_five_percent-distance_above_low_example =
    within_five_percent-distance_above_low (dollars 1050) (dollars 1000) near_low

rank_deals_found_example : (r : DealRanking) × (rank_deals (deal ∷ []) official_dollars ≡ inr r)
unfolding accepts_candidate is_unique
rank_deals_found_example =
    rank_deals_found (deal ∷ []) official_dollars refl ((refl, (((refl, tt), (refl, tt)), tt)), tt)
