-- ===== src/Ranking/Deals/Signals.antt =====
-- What `_rank_candidate` of src/steam_agent/deal_ranking.py reads off the chosen evidence: the
-- discount, the distance above the low, the bucket, the texts and the fallback rung.
use steam_cli.Prelude.{
  ℕ, ◌-◌, ◌*◌, ◌/◌, Bool, false, not, ◌&&◌, ◌||◌, if◌then◌else◌, leb, ltb, ◌==◌, Option, none, some,
  List, [], ◌∷◌, String, str_eq,
}
use steam_cli.Ranking.Order.{text}
use steam_cli.Ranking.Sort.{sort_by}
use steam_cli.Ranking.Deals.Evidence.{
  Money, OfferEvidence, HistoricalLowSummary, ProviderAttempt, max_signed_64,
}
use steam_cli.Ranking.Deals.Choice.{EvidenceGrade, exact, normalized, degraded, ungraded}

pub data DealBucket : Type 0 where
  at_or_below_low within_5_percent discounted current_only noncomparable unknown_bucket : DealBucket

abbrev pub basis_points : ℕ → ℕ → ℕ → ℕ
basis_points more less whole = ((more - less) * 10000) / whole

-- The subtraction is of a smaller price, the division by a price that is not zero.
unfoldable pub discount_bps : Money → Option Money → Option ℕ
discount_bps price none = none
discount_bps price (some regular) =
    if not (str_eq regular.currency price.currency) || not (str_eq regular.country price.country)
    then none
    else (if regular.amount_minor == 0
        then (if price.amount_minor == 0 then some 0 else none)
        else (if leb regular.amount_minor price.amount_minor
            then some 0
            else some (basis_points regular.amount_minor price.amount_minor regular.amount_minor)))

abbrev pub cap : ℕ → ℕ
cap value = if leb value max_signed_64 then value else max_signed_64

unfoldable pub distance_above_low : Money → Money → Option ℕ
distance_above_low current low =
    if leb current.amount_minor low.amount_minor
    then some 0
    else (if low.amount_minor == 0
        then none
        else some (cap (basis_points current.amount_minor low.amount_minor low.amount_minor)))

unfoldable pub within_five_percent : Money → Money → Bool
within_five_percent current low =
    if low.amount_minor == 0
    then current.amount_minor == 0
    else leb (current.amount_minor * 10000) (low.amount_minor * 10500)

abbrev pub is_positive : Option ℕ → Bool
is_positive none = false
is_positive (some n) = ltb 0 n

-- The branches on the price against a low that is there, then on the discount.
unfoldable pub price_bucket : Money → Option Money → Option ℕ → DealBucket
unfolding within_five_percent
price_bucket price none discount = if is_positive discount then discounted else current_only
price_bucket price (some low) discount =
    if leb price.amount_minor low.amount_minor
    then at_or_below_low
    else (if within_five_percent price low
        then within_5_percent
        else (if is_positive discount then discounted else current_only))

abbrev pub low_price : Option HistoricalLowSummary → Option Money
low_price none = none
low_price (some low) = some low.price

unfoldable pub bucket_of :
    Bool → Option OfferEvidence → Option HistoricalLowSummary → Option ℕ → DealBucket
unfolding price_bucket
bucket_of evidence none low discount = if evidence then noncomparable else unknown_bucket
bucket_of evidence (some offer) low discount = price_bucket offer.price (low_price low) discount

abbrev pub bucket_reason : DealBucket → String
bucket_reason at_or_below_low = "current_price_is_at_or_below_supported_low"
bucket_reason within_5_percent = "current_price_is_within_5_percent_of_supported_low"
bucket_reason discounted = "current_price_is_below_comparable_regular_price"
bucket_reason current_only = "current_price_has_no_stronger_comparable_signal"
bucket_reason noncomparable = "available_evidence_does_not_match_requested_dimensions"
bucket_reason unknown_bucket = "no_current_or_historical_evidence"

abbrev pub free_reason : Option OfferEvidence → List String
free_reason none = []
free_reason (some offer) =
    if offer.price.amount_minor == 0 then "current_price_is_explicitly_free" ∷ [] else []

abbrev pub grade_tradeoff : EvidenceGrade → List String
grade_tradeoff exact = []
grade_tradeoff normalized = "product_or_offer_evidence_is_game_level_normalized" ∷ []
grade_tradeoff degraded = "requested_comparison_dimensions_are_not_fully_supported" ∷ []
grade_tradeoff ungraded = "no_provider_evidence_was_available" ∷ []

-- A low is chosen only beside an offer.
abbrev pub free_low_tradeoff : Option OfferEvidence → Option HistoricalLowSummary → List String
free_low_tradeoff (some offer) (some low) =
    if (low.price.amount_minor == 0) && ltb 0 offer.price.amount_minor
    then "historical_low_was_free_so_relative_distance_is_undefined" ∷ []
    else []
free_low_tradeoff _ _ = []

-- The distinct providers of the offer and the low, sorted.
unfoldable pub used_providers : Option OfferEvidence → Option HistoricalLowSummary → List String
unfolding text sort_by
used_providers none none = []
used_providers (some offer) none = offer.provider ∷ []
used_providers none (some low) = low.provider ∷ []
used_providers (some offer) (some low) =
    if str_eq offer.provider low.provider
    then offer.provider ∷ []
    else sort_by (λ name. text name ∷ []) (offer.provider ∷ low.provider ∷ [])

-- A dict comprehension keeps the last value of a key.
unfoldable pub rung_by_provider : List ProviderAttempt → String → Option ℕ
rung_by_provider [] name = none
rung_by_provider (a ∷ rest) name = elim (rung_by_provider rest name) [
  | some rung ↦ some rung
  | none ↦ if str_eq a.provider name then some a.fallback_rung else none
]

-- The rungs of the used providers; `none` is a `KeyError`.
unfoldable pub rungs : List ProviderAttempt → List String → Option (List ℕ)
unfolding rung_by_provider
rungs attempts [] = some []
rungs attempts (name ∷ names) = elim (rung_by_provider attempts name) [
  | none ↦ none
  | some rung ↦ elim (rungs attempts names) [ none ↦ none | some rest ↦ some (rung ∷ rest) ]
]

-- `min(…, default=None)`
abbrev pub least : List ℕ → Option ℕ
least [] = none
least (n ∷ ns) = elim (least ns) [ none ↦ some n | some m ↦ if leb n m then some n else some m ]
