-- ===== src/Ranking/Deals/Rungs.antt =====
-- `_rank_candidate` and `rank_deals` of src/steam_agent/deal_ranking.py raise no `KeyError` on
-- candidates whose evidence carries the provider of its snapshot.
use mathlib.Core.Path.{subst}
use steam_cli.Prelude.{
  Bool, true, ◌&&◌, ◌==◌, Option, none, some, List, [], ◌∷◌, map, ◌≡◌, refl, sym, ◌∙◌, arith,
  String, str_eq, eq_iff, is_some, any, all, All, All-append, All-map, inr,
}
use steam_cli.Ranking.Sort.{sort_by-perm}
use steam_cli.Ranking.Reorder.{any-Permᴰ, map-Permᴰ, is_unique}
use steam_cli.Ranking.Deals.Evidence.{
  DealEvidenceSnapshot, ProviderAttempt, DealCandidate, DealComparisonContext, attempted,
  accepts_candidate,
}
use steam_cli.Ranking.Deals.Signals.{rungs, rung_by_provider, used_providers}
use steam_cli.Ranking.Deals.Rank.{
  RankedDealCandidate, rank_candidate, choice_of, offers_of, lows_of, attempts_of, attempt_key,
  gather, rank_each, rank_deals, DealRanking, sorted_ranking,
}
use steam_cli.Ranking.Deals.Providers.{OffersHave, LowsHave, choose_has, used_providers_have}

-- Every offer and low of a snapshot names the snapshot's provider.
abbrev pub IsFrom : DealEvidenceSnapshot → Type 0
IsFrom s = OffersHave (λ p. p ≡ s.provider) s.offers × LowsHave (λ p. p ≡ s.provider) s.history_lows

abbrev IsAttempted : List ProviderAttempt → String → Type 0
IsAttempted attempts name = any (str_eq name) (map (λ a. a.provider) attempts) ≡ true

str_eq_comm : (a b : String) → str_eq a b ≡ true → str_eq b a ≡ true
str_eq_comm a b h = (eq_iff b a).1 (sym ((eq_iff a b).0 h))

rung_by_provider_found :
    (attempts : List ProviderAttempt) (name : String)
    → IsAttempted attempts name
    → is_some (rung_by_provider attempts name) ≡ true
unfolding rung_by_provider
rung_by_provider_found [] name h = cc
rung_by_provider_found (a ∷ rest) name h =
    ground (arith, rung_by_provider_found rest name, str_eq_comm name a.provider)

rungs_found :
    (attempts : List ProviderAttempt) (names : List String)
    → All (IsAttempted attempts) names
    → is_some (rungs attempts names) ≡ true
unfolding rungs
rungs_found attempts [] h = refl
rungs_found attempts (name ∷ names) h =
    ground (arith, rung_by_provider_found attempts name h.0, rungs_found attempts names h.1)

-- The evidence of every snapshot is of providers that were attempted.
gather-IsAttempted :
    {A : Type 0} (part : DealEvidenceSnapshot → List A) (provider : A → String)
    (attempts : List ProviderAttempt) (ss : List DealEvidenceSnapshot)
    → All (λ s. All (λ a. provider a ≡ s.provider) (part s)) ss
    → All (λ s. IsAttempted attempts s.provider) ss
    → All (λ a. IsAttempted attempts (provider a)) (gather part ss)
gather-IsAttempted part provider attempts [] h k = tt
gather-IsAttempted part provider attempts (s ∷ ss) h k =
    All-append _ (part s) (gather part ss)
      (All-map _ _ (λ a e. subst (IsAttempted attempts) (sym e) k.0) (part s) h.0)
      (gather-IsAttempted part provider attempts ss h.1 k.1)

all-All :
    {A : Type 0} (p : A → Bool) (P : A → Type 0) (xs : List A)
    → ((a : A) → p a ≡ true → P a)
    → all p xs ≡ true
    → All P xs
all-All p P [] f h = tt
all-All p P (x ∷ xs) f h = (f x (ground arith), all-All p P xs f (ground arith))

accepts_candidate-IsAttempted :
    (c : DealCandidate)
    → accepts_candidate c ≡ true
    → All (λ s. IsAttempted c.provider_attempts s.provider) c.snapshots
unfolding accepts_candidate
accepts_candidate-IsAttempted c h =
    all-All (λ s. any (str_eq s.provider) (attempted c) && (s.product.steam_appid == c.steam_appid))
      _ c.snapshots (λ s k. ground arith) (ground arith)

sorted-IsAttempted :
    (c : DealCandidate) (name : String)
    → IsAttempted c.provider_attempts name
    → IsAttempted (attempts_of c) name
sorted-IsAttempted c name h =
    any-Permᴰ (str_eq name)
      (map-Permᴰ (λ a. a.provider) (sort_by-perm attempt_key c.provider_attempts))
    ∙ h

rank_candidate_found :
    (c : DealCandidate) (x : DealComparisonContext)
    → accepts_candidate c ≡ true
    → All IsFrom c.snapshots
    → is_some (rank_candidate c x) ≡ true
unfolding rank_candidate
rank_candidate_found c x h k =
    let attempted_all = accepts_candidate-IsAttempted c h in
    let chosen =
      choose_has (IsAttempted c.provider_attempts) c.steam_appid (offers_of c) (lows_of c) x
        (gather-IsAttempted (λ s. s.offers) (λ o. o.provider) c.provider_attempts c.snapshots
          (All-map _ _ (λ s f. f.0) c.snapshots k) attempted_all)
        (gather-IsAttempted (λ s. s.history_lows) (λ l. l.provider) c.provider_attempts c.snapshots
          (All-map _ _ (λ s f. f.1) c.snapshots k) attempted_all) in
    ground (
      arith,
      rungs_found (attempts_of c) (used_providers (choice_of c x).offer (choice_of c x).low) (
          All-map _ _ (sorted-IsAttempted c) _ (
            used_providers_have (IsAttempted c.provider_attempts) (choice_of c x).offer
              (choice_of c x).low chosen.0 chosen.1)),
    )

abbrev pub IsReady : DealCandidate → Type 0
IsReady c = (accepts_candidate c ≡ true) × All IsFrom c.snapshots

rank_each_found :
    (x : DealComparisonContext) (cs : List DealCandidate)
    → All IsReady cs
    → is_some (rank_each x cs) ≡ true
unfolding rank_each
rank_each_found x [] h = refl
rank_each_found x (c ∷ cs) h =
    ground (arith, rank_candidate_found c x h.0.0 h.0.1, rank_each_found x cs h.1)

sorted_ranking_found :
    (x : DealComparisonContext) (o : Option (List RankedDealCandidate))
    → is_some o ≡ true
    → (r : DealRanking) × (sorted_ranking x o ≡ inr r)
sorted_ranking_found x none h = cc
sorted_ranking_found x (some rs) h = (_, refl)

-- Candidates with different AppIDs that their constructors accept, and whose offers and lows name the
-- provider of their snapshot, are ranked: no `KeyError` is raised.
pub rank_deals_found :
    (cs : List DealCandidate) (x : DealComparisonContext)
    → is_unique (map (λ c. c.steam_appid) cs) ≡ true
    → All IsReady cs
    → (r : DealRanking) × (rank_deals cs x ≡ inr r)
unfolding rank_deals
rank_deals_found cs x u h =
    let (r, e) = sorted_ranking_found x (rank_each x cs) (rank_each_found x cs h) in
    (r, ground (arith, e, u))
