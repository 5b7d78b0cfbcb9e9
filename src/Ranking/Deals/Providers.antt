-- ===== src/Ranking/Deals/Providers.antt =====
-- The providers of the evidence that src/steam_agent/deal_ranking.py chooses are providers of the
-- evidence it was given.
use steam_cli.Prelude.{
  ℕ, Bool, true, false, if◌then◌else◌, Option, none, some, List, [], ◌∷◌, map, ◌≡◌, refl, String,
  str_eq, All, All-append, All-select, select,
}
use steam_cli.Ranking.Order.{Key, text, key_le}
use steam_cli.Ranking.Sort.{sort_by, min_by, All-min_by}
use steam_cli.Ranking.Deals.Evidence.{
  Comparability, exact_product, normalized_game, OfferEvidence, HistoricalLowSummary,
  DealComparisonContext,
}
use steam_cli.Ranking.Deals.Choice.{
  Pair, Choice, choose, choice_from, pairs, is_pair, all_pairs, pair_choice_key, offer_choice_key,
  best_current, is_current, has_evidence,
}
use steam_cli.Ranking.Deals.Signals.{used_providers}

-- A predicate holds of a value that is there.
abbrev pub Holds {ℓ κ} : {A : Type ℓ} → (A → Type κ) → Option A → Type κ
Holds P none = Unit
Holds P (some a) = P a

Holds-min_by {ℓ κ} :
    {A : Type ℓ} (key : A → Key) (P : A → Type κ) (xs : List A) → All P xs → Holds P (min_by key xs)
Holds-min_by {A} key P xs h = go (min_by key xs) refl
  where
    go : (o : Option A) → min_by key xs ≡ o → Holds P o
    go none e = tt
    go (some m) e = All-min_by key P xs m h e

module _ (P : String → Type 0) where
  -- The evidence of a list is of providers with the property.
  abbrev pub OffersHave : List OfferEvidence → Type 0
  OffersHave = All (λ o. P o.provider)

  abbrev pub LowsHave : List HistoricalLowSummary → Type 0
  LowsHave = All (λ l. P l.provider)

  abbrev PairHas : Pair → Type 0
  PairHas p = P p.0.provider × P p.1.provider

  abbrev pub ChoiceHas : Choice → Type 0
  ChoiceHas k = Holds (λ o. P o.provider) k.offer × Holds (λ l. P l.provider) k.low

  pairs_with_have :
      (o : OfferEvidence) (lows : List HistoricalLowSummary)
      → P o.provider
      → LowsHave lows
      → All PairHas (map (λ low. (o, low)) lows)
  pairs_with_have o [] h k = tt
  pairs_with_have o (l ∷ ls) h k = ((h, k.0), pairs_with_have o ls h k.1)

  all_pairs_have :
      (offers : List OfferEvidence) (lows : List HistoricalLowSummary)
      → OffersHave offers
      → LowsHave lows
      → All PairHas (all_pairs offers lows)
  all_pairs_have [] lows h k = tt
  all_pairs_have (o ∷ os) lows h k =
      All-append PairHas (map (λ low. (o, low)) lows) (all_pairs os lows)
        (pairs_with_have o lows h.0 k) (all_pairs_have os lows h.1 k)

  choice_from_has :
      (b : Bool) (current : Option OfferEvidence) (p q : Option Pair)
      → Holds (λ o. P o.provider) current
      → Holds PairHas p
      → Holds PairHas q
      → ChoiceHas (choice_from b current p q)
  choice_from_has b current (some p) q c h k = h
  choice_from_has b current none (some q) c h k = k
  choice_from_has b none none none c h k = (tt, tt)
  choice_from_has b (some o) none none c h k = (c, tt)

  -- The chosen evidence comes from the evidence.
  pub choose_has :
      (appid : ℕ) (offers : List OfferEvidence) (lows : List HistoricalLowSummary)
      (x : DealComparisonContext)
      → OffersHave offers
      → LowsHave lows
      → ChoiceHas (choose appid offers lows x)
  unfolding choose pairs best_current
  choose_has appid offers lows x h k =
      choice_from_has (has_evidence offers lows) (best_current appid offers x) _ _
        (Holds-min_by offer_choice_key _ _ (All-select _ (is_current appid x) offers h))
        (of_level exact_product) (of_level normalized_game)
    where
      of_level :
          (level : Comparability)
          → Holds PairHas
              (min_by pair_choice_key (select (is_pair appid x level) (all_pairs offers lows)))
      of_level level = Holds-min_by pair_choice_key PairHas _ (
          All-select PairHas (is_pair appid x level) (all_pairs offers lows)
            (all_pairs_have offers lows h k))

  pub used_providers_have :
      (offer : Option OfferEvidence) (low : Option HistoricalLowSummary)
      → Holds (λ o. P o.provider) offer
      → Holds (λ l. P l.provider) low
      → All P (used_providers offer low)
  unfolding used_providers
  used_providers_have none none h k = tt
  used_providers_have (some o) none h k = (h, tt)
  used_providers_have none (some l) h k = (k, tt)
  used_providers_have (some o) (some l) h k = go (str_eq o.provider l.provider)
    where
      ordered :
          (b : Bool)
          → All P (if b then o.provider ∷ l.provider ∷ [] else l.provider ∷ o.provider ∷ [])
      ordered true = (h, (k, tt))
      ordered false = (k, (h, tt))

      go :
          (b : Bool)
          → All P (
              if b
              then o.provider ∷ []
              else sort_by (λ name. text name ∷ []) (o.provider ∷ l.provider ∷ []))
      go true = (h, tt)
      go false = ordered (key_le (text o.provider ∷ []) (text l.provider ∷ []))
