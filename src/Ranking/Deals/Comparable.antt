-- ===== src/Ranking/Deals/Comparable.antt =====
-- A historical low that src/steam_agent/deal_ranking.py compares an offer with is comparable with it
-- in every requested dimension, and the bucket says how the prices stand.
use mathlib.Core.Path.{subst}
use mathlib.Core.Option.{some-injective}
use steam_cli.Prelude.{
  ◌⊎◌, inl, inr, ℕ, ◌≤◌, true, Option, none, some, List, [], ◌≡◌, refl, sym, ap, ◌∙◌, All, All-map,
  select-holds, Bool, false, ◌&&◌, String, eq_iff, arith,
}
use steam_cli.Ranking.Order.{key_le-nat}
use steam_cli.Ranking.Sort.{min_by, min_by-IsLeast, min_by-none, All-min_by}
use steam_cli.Ranking.Deals.Evidence.{
  StoreClass, official, keyshop, unknown_store, unknown_product, ProductIdentity, Money,
  Comparability, exact_product, normalized_game, OfferEvidence, HistoricalLowSummary, DealCandidate,
  DealComparisonContext,
}
use steam_cli.Ranking.Deals.Choice.{
  EvidenceGrade, exact, normalized, Pair, is_pair, pairs, pair_choice_key, Choice, choose,
  is_comparability, is_store, product_matches, money_dimensions_match, scope_matches_store_class,
  all_pairs, paired, choice_from,
}
use steam_cli.Ranking.Deals.Rank.{
  RankedDealCandidate, rank_candidate, ranked_of, offers_of, lows_of,
}
use steam_cli.Ranking.Deals.Result.{rank_candidate-ranked_of}

-- The grade of a chosen pair: normalized evidence only where there is no exact pair.
abbrev pub IsGradeOf : EvidenceGrade → Comparability → List Pair → Type 0
IsGradeOf g level exact_pairs =
    ((g ≡ exact) × (level ≡ exact_product))
    ⊎ ((g ≡ normalized) × (level ≡ normalized_game) × (exact_pairs ≡ []))

-- The scope of a history that speaks of the offers of a store class.
abbrev pub scope_of : StoreClass → String
scope_of official = "all_time_official_stores"
scope_of keyshop = "all_time_keyshops"
scope_of unknown_store = "all_time_any_store"

-- An identity that is mapped to the AppID without doubt.
abbrev pub IsProduct : ℕ → ProductIdentity → Type 0
IsProduct appid p = (p.mapping ≡ "exact") × (p.steam_appid ≡ appid)

-- A price in the country and currency that were asked for.
abbrev pub IsIn : DealComparisonContext → Money → Type 0
IsIn x m = (m.country ≡ x.country) × (m.currency ≡ x.currency)

-- An offer and a low that may be compared: one provider and one product of it, which is the game;
-- both prices in the requested country and currency; the store class and the history scope that were
-- asked for, and that belong together.
pub record IsComparable (appid : ℕ) (x : DealComparisonContext) (level : Comparability)
    (offer : OfferEvidence) (low : HistoricalLowSummary) : Type 0 where
  pub provider : offer.provider ≡ low.provider
  pub offer_level : offer.comparability ≡ level
  pub low_level : low.comparability ≡ level
  pub offer_product : IsProduct appid offer.product
  pub low_product : IsProduct appid low.product
  pub one_product : offer.product.provider_product_id ≡ low.product.provider_product_id
  pub offer_price : IsIn x offer.price
  pub low_price : IsIn x low.price
  pub store : offer.store_class ≡ x.store_class
  pub scope : low.scope ≡ x.history_scope
  pub scope_of_store : low.scope ≡ scope_of offer.store_class

is_comparability-eq : (a b : Comparability) → is_comparability a b ≡ true → a ≡ b
is_comparability-eq exact_product exact_product h = refl
is_comparability-eq normalized_game normalized_game h = refl
is_comparability-eq unknown_product unknown_product h = refl
is_comparability-eq exact_product normalized_game h = cc
is_comparability-eq exact_product unknown_product h = cc
is_comparability-eq normalized_game exact_product h = cc
is_comparability-eq normalized_game unknown_product h = cc
is_comparability-eq unknown_product exact_product h = cc
is_comparability-eq unknown_product normalized_game h = cc

is_store-eq : (a b : StoreClass) → is_store a b ≡ true → a ≡ b
is_store-eq official official h = refl
is_store-eq keyshop keyshop h = refl
is_store-eq unknown_store unknown_store h = refl
is_store-eq official keyshop h = cc
is_store-eq official unknown_store h = cc
is_store-eq keyshop official h = cc
is_store-eq keyshop unknown_store h = cc
is_store-eq unknown_store official h = cc
is_store-eq unknown_store keyshop h = cc

scope_matches_store_class-eq :
    (s : String) (c : StoreClass) → scope_matches_store_class s c ≡ true → s ≡ scope_of c
unfolding scope_matches_store_class
scope_matches_store_class-eq s official h = (eq_iff s _).0 h
scope_matches_store_class-eq s keyshop h = (eq_iff s _).0 h
scope_matches_store_class-eq s unknown_store h = (eq_iff s _).0 h

and_lem : (a b : Bool) → (a && b) ≡ true → (a ≡ true) × (b ≡ true)
and_lem true b h = (refl, h)
and_lem false b h = cc

product_matches-IsProduct :
    (appid : ℕ) (p : ProductIdentity) → product_matches appid p ≡ true → IsProduct appid p
unfolding product_matches
product_matches-IsProduct appid p h =
    let (m, a) = and_lem _ _ h in ((eq_iff p.mapping "exact").0 m, ground (arith, a))

money_dimensions_match-IsIn :
    (x : DealComparisonContext) (m : Money) → money_dimensions_match m x ≡ true → IsIn x m
unfolding money_dimensions_match
money_dimensions_match-IsIn x m h =
    let (a, b) = and_lem _ _ h in
    ((eq_iff m.country x.country).0 a, (eq_iff m.currency x.currency).0 b)

is_pair-IsComparable :
    (appid : ℕ) (x : DealComparisonContext) (level : Comparability) (offer : OfferEvidence)
    (low : HistoricalLowSummary)
    → is_pair appid x level (offer, low) ≡ true
    → IsComparable appid x level offer low
unfolding is_pair
is_pair-IsComparable appid x level offer low h =
    let (h, scope_of_store) = and_lem _ _ h in
    let (h, scope) = and_lem _ _ h in
    let (h, store) = and_lem _ _ h in
    let (h, low_price) = and_lem _ _ h in
    let (h, offer_price) = and_lem _ _ h in
    let (h, one_product) = and_lem _ _ h in
    let (h, low_product) = and_lem _ _ h in
    let (h, offer_product) = and_lem _ _ h in
    let (h, low_level) = and_lem _ _ h in
    let (provider, offer_level) = and_lem _ _ h in
    record {
      provider = (eq_iff _ _).0 provider;
      offer_level = is_comparability-eq _ _ offer_level;
      low_level = is_comparability-eq _ _ low_level;
      offer_product = product_matches-IsProduct appid offer.product offer_product;
      low_product = product_matches-IsProduct appid low.product low_product;
      one_product = (eq_iff _ _).0 one_product;
      offer_price = money_dimensions_match-IsIn x offer.price offer_price;
      low_price = money_dimensions_match-IsIn x low.price low_price;
      store = is_store-eq _ _ store;
      scope = (eq_iff _ _).0 scope;
      scope_of_store = scope_matches_store_class-eq _ _ scope_of_store;
    }

-- The offer beside a low: both are evidence of one product, store class and scope in the requested
-- country and currency, and no pair of the same grade has a smaller price.
pub record IsSupported (appid : ℕ) (offers : List OfferEvidence) (lows : List HistoricalLowSummary)
    (x : DealComparisonContext) (k : Choice) (low : HistoricalLowSummary) : Type 0 where
  pub offer : OfferEvidence
  pub level : Comparability
  pub chosen : k.offer ≡ some offer
  pub grade : IsGradeOf k.grade level (pairs appid offers lows x exact_product)
  pub comparable : IsComparable appid x level offer low
  pub cheapest :
      All (λ p. offer.price.amount_minor ≤ p.0.price.amount_minor) (pairs appid offers lows x level)

module _ (appid : ℕ) (offers : List OfferEvidence) (lows : List HistoricalLowSummary)
    (x : DealComparisonContext) where
  paired-IsSupported :
      (level : Comparability) (g : EvidenceGrade) (p : Pair) (low : HistoricalLowSummary)
      → IsGradeOf g level (pairs appid offers lows x exact_product)
      → min_by pair_choice_key (pairs appid offers lows x level) ≡ some p
      → (paired g p).low ≡ some low
      → IsSupported appid offers lows x (paired g p) low
  unfolding pairs pair_choice_key
  paired-IsSupported level g (o, l) low grade h e = record {
    offer = o;
    level = level;
    chosen = refl;
    grade = grade;
    comparable = is_pair-IsComparable appid x level o low (
        ap (λ m. is_pair appid x level (o, m)) (sym (some-injective _ _ e))
        ∙ All-min_by pair_choice_key (λ p. is_pair appid x level p ≡ true) _ (o, l)
            (select-holds (is_pair appid x level) (all_pairs offers lows)) h);
    cheapest =
        All-map _ _ (λ p k. (key_le-nat o.price.amount_minor p.0.price.amount_minor _ _ k).0) _
          (min_by-IsLeast pair_choice_key _ (o, l) h);
  }

  choice_from-IsSupported :
      (evidence : Bool) (current : Option OfferEvidence) (p q : Option Pair)
      (low : HistoricalLowSummary)
      → min_by pair_choice_key (pairs appid offers lows x exact_product) ≡ p
      → min_by pair_choice_key (pairs appid offers lows x normalized_game) ≡ q
      → (choice_from evidence current p q).low ≡ some low
      → IsSupported appid offers lows x (choice_from evidence current p q) low
  choice_from-IsSupported b o (some p) q low e f h =
      paired-IsSupported exact_product exact p low (inl (refl, refl)) e h
  choice_from-IsSupported b o none (some q) low e f h =
      paired-IsSupported normalized_game normalized q low
        (inr (refl, refl, min_by-none pair_choice_key _ e)) f h
  choice_from-IsSupported b none none none low e f h = cc
  choice_from-IsSupported b (some o) none none low e f h = cc

  choose-IsSupported :
      (low : HistoricalLowSummary)
      → (choose appid offers lows x).low ≡ some low
      → IsSupported appid offers lows x (choose appid offers lows x) low
  unfolding choose
  choose-IsSupported low h = choice_from-IsSupported _ _ _ _ low refl refl h

-- A low that a ranked candidate names comes with an offer of the same provider and the same product,
-- which is mapped exactly to the candidate's AppID; both prices are in the country and currency that
-- were asked for, the store class of the offer and the scope of the low are the ones that were asked
-- for, and the scope is that of the store class. No pair of the same grade has an offer at a smaller
-- price, and the grade is normalized only where there is no exact pair.
pub rank_candidate-IsSupported :
    (c : DealCandidate) (x : DealComparisonContext) (r : RankedDealCandidate)
    (low : HistoricalLowSummary)
    → rank_candidate c x ≡ some r
    → r.historical_low ≡ some low
    → IsSupported c.steam_appid
        (offers_of c)
        (lows_of c)
        x
        (record { offer = r.current_offer; low = r.historical_low; grade = r.evidence_grade })
        low
unfolding ranked_of
rank_candidate-IsSupported c x r low h e =
    let same = (rank_candidate-ranked_of c x r h).2 in
    subst
      (λ q.
        IsSupported c.steam_appid (offers_of c) (lows_of c) x
          (record { offer = q.current_offer; low = q.historical_low; grade = q.evidence_grade })
          low)
      (sym same)
      (choose-IsSupported c.steam_appid (offers_of c) (lows_of c) x low
        (sym (ap (λ q. q.historical_low) same) ∙ e))
