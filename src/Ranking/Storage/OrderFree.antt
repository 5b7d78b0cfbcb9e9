-- ===== src/Ranking/Storage/OrderFree.antt =====
-- The rankings of src/steam_agent/storage_ranking.py do not depend on the order of the candidates.
use mathlib.Core.List.{Permᴰ}
use steam_cli.Prelude.{
  ℕ, true, none, List, [], ◌∷◌, ◌++◌, map, ◌≡◌, refl, ap, ◌∙◌, sym, arith, length,
}
use steam_cli.Ranking.Order.{ℤ, pos, Key, nat}
use steam_cli.Ranking.Reorder.{
  length-Permᴰ, map-Permᴰ, is_unique, is_unique-Permᴰ, sort_by-map-Permᴰ,
}
use steam_cli.Ranking.Checks.{
  Check, ◌then_check◌, validate_candidates, validate_positive_bytes, checked-cong, candidates_check,
}
use steam_cli.Ranking.Storage.Candidate.{ReclaimCandidate, TravelCandidate}
use steam_cli.Ranking.Storage.Reclaim.{ReclaimResult, reclaim_item, reclaim_key, rank_reclaim_space}
use steam_cli.Ranking.Storage.Travel.{
  TravelResult, travel_item, travel_key, state_keys, travel_order, rank_travel_install,
}

validate_candidates-Permᴰ :
    {xs ys : List ℕ} → Permᴰ xs ys → validate_candidates xs ≡ validate_candidates ys
unfolding validate_candidates
validate_candidates-Permᴰ {xs} {ys} d =
    ap (λ n. candidates_check n (is_unique xs)) (length-Permᴰ d)
    ∙ ap (candidates_check (length ys)) (is_unique-Permᴰ d)

-- Candidates that pass the check have different AppIDs.
pub validate_candidates-is_unique :
    (appids : List ℕ) (rest : Check)
    → (validate_candidates appids then_check rest) ≡ none
    → is_unique appids ≡ true
unfolding validate_candidates
validate_candidates-is_unique appids rest h = ground arith

-- The last component of a key.
abbrev last_of : Key → ℕ
last_of [] = 0
last_of (k ∷ []) = elim k [ [] ↦ 0 | z ∷ zs ↦ elim z [ pos n ↦ n | _ ↦ 0 ] ]
last_of (k ∷ l ∷ ks) = last_of (l ∷ ks)

last_of-append : (ks : Key) (l : List ℤ) (ls : Key) → last_of (ks ++ (l ∷ ls)) ≡ last_of (l ∷ ls)
last_of-append [] l ls = refl
last_of-append (k ∷ []) l ls = refl
last_of-append (k ∷ j ∷ ks) l ls = last_of-append (j ∷ ks) l ls

reclaim_key_ties : (a b : ReclaimResult) → reclaim_key a ≡ reclaim_key b → a.appid ≡ b.appid
unfolding reclaim_key
reclaim_key_ties a b h = ap last_of h

travel_key_ties : (a b : TravelResult) → travel_key a ≡ travel_key b → a.appid ≡ b.appid
unfolding travel_key
travel_key_ties a b h = sym (appid_last a) ∙ ap last_of h ∙ appid_last b
  where
    appid_last : (r : TravelResult) → last_of (travel_key r) ≡ r.appid
    appid_last r = last_of-append (nat (travel_order r.eligibility) ∷ state_keys r.gates) _ _

-- For the same target, the same candidates in any order give the same ranking, or the same fault.
pub rank_reclaim_space_reordered :
    (target : ℕ) {xs ys : List ReclaimCandidate}
    → Permᴰ xs ys
    → rank_reclaim_space xs target ≡ rank_reclaim_space ys target
unfolding rank_reclaim_space reclaim_item
rank_reclaim_space_reordered target {xs} {ys} d =
    checked-cong (checks xs) (checks ys)
      (ap (λ c. c then_check validate_positive_bytes target)
        (validate_candidates-Permᴰ (map-Permᴰ (λ c. c.appid) d)))
      (λ passed.
        ap (λ rs. record { target_bytes = target; results = rs })
          (sort_by-map-Permᴰ reclaim_key (λ r. r.appid) reclaim_key_ties (reclaim_item target)
            (λ c. c.appid) (λ c. refl) d
            (validate_candidates-is_unique (map (λ c. c.appid) xs) (validate_positive_bytes target)
              passed)))
  where
    checks : List ReclaimCandidate → Check
    checks cs =
        validate_candidates (map (λ c. c.appid) cs) then_check validate_positive_bytes target

-- For the same budget, the same candidates in any order give the same ranking, or the same fault.
pub rank_travel_install_reordered :
    (budget : ℕ) {xs ys : List TravelCandidate}
    → Permᴰ xs ys
    → rank_travel_install xs budget ≡ rank_travel_install ys budget
unfolding rank_travel_install travel_item
rank_travel_install_reordered budget {xs} {ys} d =
    checked-cong (checks xs) (checks ys)
      (ap (λ c. c then_check validate_positive_bytes budget)
        (validate_candidates-Permᴰ (map-Permᴰ (λ c. c.appid) d)))
      (λ passed.
        ap (λ rs. record { budget_bytes = budget; results = rs })
          (sort_by-map-Permᴰ travel_key (λ r. r.appid) travel_key_ties (travel_item budget)
            (λ c. c.appid) (λ c. refl) d
            (validate_candidates-is_unique (map (λ c. c.appid) xs) (validate_positive_bytes budget)
              passed)))
  where
    checks : List TravelCandidate → Check
    checks cs =
        validate_candidates (map (λ c. c.appid) cs) then_check validate_positive_bytes budget
