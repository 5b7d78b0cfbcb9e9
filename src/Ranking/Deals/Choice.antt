-- ===== src/Ranking/Deals/Choice.antt =====
-- The evidence that `_rank_candidate` of src/steam_agent/deal_ranking.py compares: `_pairs`,
-- `_best_current` and the keys of their least elements.
use steam_cli.Prelude.{
  ℕ, Bool, true, false, ◌&&◌, if◌then◌else◌, ◌==◌, Option, none, some, List, [], ◌∷◌, ◌++◌, map,
  String, str_eq, select,
}
use steam_cli.Ranking.Order.{Key, nat, text}
use steam_cli.Ranking.Sort.{min_by}
use steam_cli.Ranking.Deals.Evidence.{
  Comparability, exact_product, normalized_game, unknown_product, StoreClass, official, keyshop,
  unknown_store, Money, OfferEvidence, HistoricalLowSummary, DealComparisonContext, ProductIdentity,
}

pub data EvidenceGrade : Type 0 where
  exact normalized degraded ungraded : EvidenceGrade

abbrev pub is_comparability : Comparability → Comparability → Bool
is_comparability exact_product exact_product = true
is_comparability normalized_game normalized_game = true
is_comparability unknown_product unknown_product = true
is_comparability _ _ = false

abbrev pub is_store : StoreClass → StoreClass → Bool
is_store official official = true
is_store keyshop keyshop = true
is_store unknown_store unknown_store = true
is_store _ _ = false

unfoldable pub product_matches : ℕ → ProductIdentity → Bool
product_matches appid p = str_eq p.mapping "exact" && (p.steam_appid == appid)

unfoldable pub money_dimensions_match : Money → DealComparisonContext → Bool
money_dimensions_match m x = str_eq m.country x.country && str_eq m.currency x.currency

unfoldable pub scope_matches_store_class : String → StoreClass → Bool
scope_matches_store_class scope official = str_eq scope "all_time_official_stores"
scope_matches_store_class scope keyshop = str_eq scope "all_time_keyshops"
scope_matches_store_class scope unknown_store = str_eq scope "all_time_any_store"

abbrev pub Pair : Type 0
Pair = OfferEvidence × HistoricalLowSummary

-- The condition of the comprehension in `_pairs`.
unfoldable pub is_pair : ℕ → DealComparisonContext → Comparability → Pair → Bool
unfolding product_matches money_dimensions_match scope_matches_store_class
is_pair appid x expected (offer, low) =
    str_eq offer.provider low.provider
    && is_comparability offer.comparability expected
    && is_comparability low.comparability expected
    && product_matches appid offer.product
    && product_matches appid low.product
    && str_eq offer.product.provider_product_id low.product.provider_product_id
    && money_dimensions_match offer.price x
    && money_dimensions_match low.price x
    && is_store offer.store_class x.store_class
    && str_eq low.scope x.history_scope
    && scope_matches_store_class low.scope offer.store_class

abbrev pub all_pairs : List OfferEvidence → List HistoricalLowSummary → List Pair
all_pairs [] lows = []
all_pairs (offer ∷ offers) lows = map (λ low. (offer, low)) lows ++ all_pairs offers lows

unfoldable pub pairs :
    ℕ
    → List OfferEvidence
    → List HistoricalLowSummary
    → DealComparisonContext
    → Comparability
    → List Pair
unfolding is_pair
pairs appid offers lows x expected = select (is_pair appid x expected) (all_pairs offers lows)

unfoldable pub pair_choice_key : Pair → Key
unfolding text
pair_choice_key (offer, low) =
    nat offer.price.amount_minor
    ∷ nat low.price.amount_minor
    ∷ text offer.provider
    ∷ text offer.observed_at
    ∷ []

abbrev comparability_order : Comparability → ℕ
comparability_order exact_product = 0
comparability_order normalized_game = 1
comparability_order unknown_product = 2

unfoldable pub offer_choice_key : OfferEvidence → Key
unfolding text
offer_choice_key offer =
    nat (comparability_order offer.comparability)
    ∷ nat offer.price.amount_minor
    ∷ text offer.provider
    ∷ text offer.observed_at
    ∷ []

unfoldable pub is_current : ℕ → DealComparisonContext → OfferEvidence → Bool
unfolding product_matches money_dimensions_match
is_current appid x offer =
    product_matches appid offer.product
    && money_dimensions_match offer.price x
    && is_store offer.store_class x.store_class

unfoldable pub best_current : ℕ → List OfferEvidence → DealComparisonContext → Option OfferEvidence
unfolding is_current offer_choice_key min_by
best_current appid offers x = min_by offer_choice_key (select (is_current appid x) offers)

-- `offer`, `low` and `grade`.
pub record Choice : Type 0 where
  pub offer : Option OfferEvidence
  pub low : Option HistoricalLowSummary
  pub grade : EvidenceGrade

abbrev comparability_grade : Comparability → EvidenceGrade
comparability_grade exact_product = exact
comparability_grade normalized_game = normalized
comparability_grade unknown_product = degraded

-- `offers or lows`
abbrev pub has_evidence : List OfferEvidence → List HistoricalLowSummary → Bool
has_evidence [] [] = false
has_evidence _ _ = true

abbrev pub paired : EvidenceGrade → Pair → Choice
paired g (o, l) = record { offer = some o; low = some l; grade = g }

abbrev pub unpaired : Bool → Option OfferEvidence → Choice
unpaired evidence none = record {
  offer = none;
  low = none;
  grade = (if evidence then degraded else ungraded);
}
unpaired evidence (some o) = record {
  offer = some o;
  low = none;
  grade = comparability_grade o.comparability;
}

-- The least exact pair, else the least normalized one, else the best current offer alone.
abbrev pub choice_from : Bool → Option OfferEvidence → Option Pair → Option Pair → Choice
choice_from evidence current (some p) q = paired exact p
choice_from evidence current none (some q) = paired normalized q
choice_from evidence current none none = unpaired evidence current

unfoldable pub choose :
    ℕ → List OfferEvidence → List HistoricalLowSummary → DealComparisonContext → Choice
unfolding pairs pair_choice_key min_by best_current
choose appid offers lows x =
    choice_from (has_evidence offers lows) (best_current appid offers x)
      (min_by pair_choice_key (pairs appid offers lows x exact_product))
      (min_by pair_choice_key (pairs appid offers lows x normalized_game))
