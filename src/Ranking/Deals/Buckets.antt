-- ===== src/Ranking/Deals/Buckets.antt =====
-- What the bucket of src/steam_agent/deal_ranking.py claims of the prices.
use mathlib.Core.Path.{subst}
use mathlib.Core.Option.{some-injective}
use steam_cli.Prelude.{
  ℕ, zero, suc, ◌≤◌, ◌<◌, ◌*◌, Bool, true, false, leb, if◌then◌else◌, Option, none, some, ◌≡◌, refl,
  sym, arith, str_eq,
}
use steam_cli.Ranking.Deals.Evidence.{
  Money, OfferEvidence, HistoricalLowSummary, DealCandidate, DealComparisonContext,
}
use steam_cli.Ranking.Deals.Choice.{has_evidence}
use steam_cli.Ranking.Deals.Signals.{
  DealBucket, at_or_below_low, within_5_percent, discounted, current_only, noncomparable,
  unknown_bucket, bucket_of, price_bucket, within_five_percent, discount_bps, low_price,
  is_positive,
}
use steam_cli.Ranking.Deals.Bounds.{discount_bps-IsDiscount}
use steam_cli.Ranking.Deals.Rank.{
  RankedDealCandidate, rank_candidate, ranked_of, discount_of, choice_of, offers_of, lows_of,
}
use steam_cli.Ranking.Deals.Result.{rank_candidate-ranked_of}

-- Prices in minor units: five percent above a low is 105 parts for its 100.
abbrev pub PriceClaim : DealBucket → Money → Option Money → Option Money → Type 0
PriceClaim at_or_below_low price low regular =
    (l : Money) × (low ≡ some l) × (price.amount_minor ≤ l.amount_minor)
PriceClaim within_5_percent price low regular =
    (l : Money) × (low ≡ some l)
    × (l.amount_minor < price.amount_minor)
    × (price.amount_minor * 100 ≤ l.amount_minor * 105)
PriceClaim discounted price low regular =
    (q : Money) × (regular ≡ some q)
    × (price.amount_minor < q.amount_minor)
    × (str_eq q.currency price.currency ≡ true)
    × ((l : Money) → low ≡ some l → l.amount_minor * 105 < price.amount_minor * 100)
PriceClaim current_only price low regular =
    (l : Money) → low ≡ some l → l.amount_minor * 105 < price.amount_minor * 100
PriceClaim noncomparable price low regular = ⊥
PriceClaim unknown_bucket price low regular = ⊥

abbrev NoLowNear : Money → Option Money → Type 0
NoLowNear price low = (l : Money) → low ≡ some l → l.amount_minor * 105 < price.amount_minor * 100

weak_claim :
    (price : Money) (low regular : Option Money)
    → NoLowNear price low
    → PriceClaim
        (if is_positive (discount_bps price regular) then discounted else current_only)
        price
        low
        regular
weak_claim price low regular far = go (discount_bps price regular) refl
  where
    positive : (d : ℕ) → is_positive (some (suc d)) ≡ true
    positive d = ground arith

    go :
        (o : Option ℕ)
        → discount_bps price regular ≡ o
        → PriceClaim (if is_positive o then discounted else current_only) price low regular
    go none e = far
    go (some zero) e = far
    go (some (suc d)) e =
        let (q, is_regular, below, currency, _, _) =
          (discount_bps-IsDiscount price regular (suc d) e).below (omega arith) in
        subst (λ b. PriceClaim (if b then discounted else current_only) price low regular)
          (sym (positive d)) (q, is_regular, below, currency, far)

within_bound :
    (price l : Money)
    → within_five_percent price l ≡ true
    → l.amount_minor < price.amount_minor
    → price.amount_minor * 100 ≤ l.amount_minor * 105
unfolding within_five_percent
within_bound price l f above = ground arith

above_bound :
    (price l m : Money)
    → within_five_percent price l ≡ false
    → l.amount_minor < price.amount_minor
    → some l ≡ some m
    → m.amount_minor * 105 < price.amount_minor * 100
unfolding within_five_percent
above_bound price l m f above e =
    subst (λ k. k.amount_minor * 105 < price.amount_minor * 100) (some-injective _ _ e)
      (ground arith)

price_bucket-PriceClaim :
    (price : Money) (low regular : Option Money)
    → PriceClaim (price_bucket price low (discount_bps price regular)) price low regular
unfolding price_bucket
price_bucket-PriceClaim price none regular = weak_claim price none regular (λ l e. cc)
price_bucket-PriceClaim price (some l) regular =
    go (leb price.amount_minor l.amount_minor) (within_five_percent price l) refl refl
  where
    go :
        (a b : Bool)
        → leb price.amount_minor l.amount_minor ≡ a
        → within_five_percent price l ≡ b
        → PriceClaim
            (if a
              then at_or_below_low
              else (if b
                  then within_5_percent
                  else (if is_positive (discount_bps price regular)
                      then discounted
                      else current_only)))
            price
            (some l)
            regular
    go true b e f = (l, refl, ground arith)
    go false true e f = (l, refl, ground arith, within_bound price l f (ground arith))
    go false false e f =
        weak_claim price (some l) regular (λ m k. above_bound price l m f (ground arith) k)

-- What a bucket claims of the offer and the low beside it.
abbrev pub BucketClaim : DealBucket → Option OfferEvidence → Option HistoricalLowSummary → Type 0
BucketClaim noncomparable offer low = offer ≡ none
BucketClaim unknown_bucket offer low = offer ≡ none
BucketClaim bucket offer low =
    (o : OfferEvidence) × (offer ≡ some o)
    × PriceClaim bucket o.price (low_price low) o.regular_price

with_offer :
    (b : DealBucket) (o : OfferEvidence) (low : Option HistoricalLowSummary)
    → PriceClaim b o.price (low_price low) o.regular_price
    → BucketClaim b (some o) low
with_offer at_or_below_low o low h = (o, refl, h)
with_offer within_5_percent o low h = (o, refl, h)
with_offer discounted o low h = (o, refl, h)
with_offer current_only o low h = (o, refl, h)
with_offer noncomparable o low h = absurd h
with_offer unknown_bucket o low h = absurd h

bucket_of-BucketClaim :
    (evidence : Bool) (offer : Option OfferEvidence) (low : Option HistoricalLowSummary)
    → BucketClaim (bucket_of evidence offer low (discount_of offer)) offer low
unfolding bucket_of
bucket_of-BucketClaim true none low = refl
bucket_of-BucketClaim false none low = refl
bucket_of-BucketClaim evidence (some o) low =
    with_offer _ o low (price_bucket-PriceClaim o.price (low_price low) o.regular_price)

-- The bucket of a ranked candidate is true of the exact prices beside it: the offer is at or below
-- the low; above it by at most five percent; below a regular price in its currency, and more than
-- five percent above any low; more than five percent above any low; and in the last two buckets
-- there is no offer.
pub rank_candidate-BucketClaim :
    (c : DealCandidate) (x : DealComparisonContext) (r : RankedDealCandidate)
    → rank_candidate c x ≡ some r
    → BucketClaim r.bucket r.current_offer r.historical_low
unfolding ranked_of
rank_candidate-BucketClaim c x r h =
    subst (λ q. BucketClaim q.bucket q.current_offer q.historical_low)
      (sym (rank_candidate-ranked_of c x r h).2)
      (bucket_of-BucketClaim (has_evidence (offers_of c) (lows_of c)) (choice_of c x).offer
        (choice_of c x).low)
