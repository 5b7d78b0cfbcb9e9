-- ===== src/Ranking/Deals/OrderFree.antt =====
-- `rank_deals` of src/steam_agent/deal_ranking.py keeps every candidate, and does not depend on
-- their order.
use mathlib.Core.List.{Permᴰ}
use mathlib.Core.Path.{subst}
use steam_cli.Prelude.{
  ℕ, Bool, true, Option, none, some, List, [], ◌∷◌, map, ◌≡◌, refl, ap, ◌∙◌, arith, inl, inr,
  Bool-cases, count_where, ◌≤◌, ◌==◌,
}
use steam_cli.Ranking.Sort.{sort_by-perm}
use steam_cli.Ranking.Reorder.{
  is_unique, is_unique-count, is_unique-Permᴰ, map-Permᴰ, sort_by-Permᴰ,
}
use steam_cli.Ranking.Deals.Evidence.{DealCandidate, DealComparisonContext}
use steam_cli.Ranking.Deals.Result.{rank_candidate-ranked_of}
use steam_cli.Ranking.Deals.Rank.{
  RankedDealCandidate, rank_candidate, ranked_of, rank_each, sort_key, rank_deals, DealRanking,
  sorted_ranking,
}

-- Both fail, or both return reorderings of one list.
abbrev Reordered : {A : Type 0} → Option (List A) → Option (List A) → Type 0
Reordered none none = Unit
Reordered (some xs) (some ys) = Permᴰ xs ys
Reordered _ _ = ⊥

abbrev push : {A : Type 0} → Option A → Option (List A) → Option (List A)
push o rest = elim o [ none ↦ none | some r ↦ elim rest [ none ↦ none | some rs ↦ some (r ∷ rs) ] ]

push-Reordered :
    {A : Type 0} (o : Option A) (r s : Option (List A))
    → Reordered r s
    → Reordered (push o r) (push o s)
push-Reordered none r s h = tt
push-Reordered (some a) none none h = tt
push-Reordered (some a) none (some ys) h = absurd h
push-Reordered (some a) (some xs) none h = absurd h
push-Reordered (some a) (some xs) (some ys) h = Permᴰ.cons refl h

push-swap :
    {A : Type 0} (o p : Option A) (r : Option (List A))
    → Reordered (push o (push p r)) (push p (push o r))
push-swap {A} o p r = go o p r
  where
    go : (o p : Option A) (r : Option (List A)) → Reordered (push o (push p r)) (push p (push o r))
    go none none r = tt
    go none (some p) none = tt
    go none (some p) (some rs) = tt
    go (some o) none none = tt
    go (some o) none (some rs) = tt
    go (some o) (some p) none = tt
    go (some o) (some p) (some rs) = Permᴰ.swap refl refl

Reordered-trans :
    {A : Type 0} (r s t : Option (List A)) → Reordered r s → Reordered s t → Reordered r t
Reordered-trans none none none h k = tt
Reordered-trans none none (some zs) h k = absurd k
Reordered-trans none (some ys) t h k = absurd h
Reordered-trans (some xs) none t h k = absurd h
Reordered-trans (some xs) (some ys) none h k = absurd k
Reordered-trans (some xs) (some ys) (some zs) h k = Permᴰ.trans h k

rank_each-Reordered :
    (x : DealComparisonContext) {cs ds : List DealCandidate}
    → Permᴰ cs ds
    → Reordered (rank_each x cs) (rank_each x ds)
unfolding rank_each
rank_each-Reordered x Permᴰ.nil = Permᴰ.nil
rank_each-Reordered x (Permᴰ.cons {a} {b} {l₁} {l₂} e d) =
    subst (λ c. Reordered (rank_each x (a ∷ l₁)) (rank_each x (c ∷ l₂))) e
      (push-Reordered (rank_candidate a x) (rank_each x l₁) (rank_each x l₂)
        (rank_each-Reordered x d))
rank_each-Reordered x (Permᴰ.swap {a} {b} {a'} {b'} {l} e d) =
    subst (λ c. Reordered (rank_each x (a ∷ b ∷ l)) (rank_each x (c ∷ b' ∷ l))) d
      (subst (λ c. Reordered (rank_each x (a ∷ b ∷ l)) (rank_each x (b ∷ c ∷ l))) e
        (push-swap (rank_candidate a x) (rank_candidate b x) (rank_each x l)))
rank_each-Reordered x (Permᴰ.trans {l₁} {l₂} {l₃} d e) =
    Reordered-trans (rank_each x l₁) (rank_each x l₂) (rank_each x l₃) (rank_each-Reordered x d)
      (rank_each-Reordered x e)

sort_key_ties :
    (a b : RankedDealCandidate) → sort_key a ≡ sort_key b → a.steam_appid ≡ b.steam_appid
unfolding sort_key
sort_key_ties a b h = ground arith

rank_candidate-steam_appid :
    (c : DealCandidate) (x : DealComparisonContext) (r : RankedDealCandidate)
    → rank_candidate c x ≡ some r
    → r.steam_appid ≡ c.steam_appid
unfolding ranked_of
rank_candidate-steam_appid c x r h = ap (λ q. q.steam_appid) (rank_candidate-ranked_of c x r h).2

-- The AppIDs of a result, where there is one.
abbrev AppidsAre : List ℕ → Option (List RankedDealCandidate) → Type 0
AppidsAre ns none = Unit
AppidsAre ns (some rs) = map (λ r. r.steam_appid) rs ≡ ns

push-AppidsAre :
    (n : ℕ) (ns : List ℕ) (o : Option RankedDealCandidate)
    (rest : Option (List RankedDealCandidate))
    → ((r : RankedDealCandidate) → o ≡ some r → r.steam_appid ≡ n)
    → AppidsAre ns rest
    → AppidsAre (n ∷ ns) (push o rest)
push-AppidsAre n ns none rest h k = tt
push-AppidsAre n ns (some r) none h k = tt
push-AppidsAre n ns (some r) (some rs) h k =
    ap (λ m. m ∷ map (λ q. q.steam_appid) rs) (h r refl) ∙ ap (λ ms. n ∷ ms) k

rank_each-AppidsAre :
    (x : DealComparisonContext) (cs : List DealCandidate)
    → AppidsAre (map (λ c. c.steam_appid) cs) (rank_each x cs)
unfolding rank_each
rank_each-AppidsAre x [] = refl
rank_each-AppidsAre x (c ∷ cs) =
    push-AppidsAre c.steam_appid (map (λ c. c.steam_appid) cs) (rank_candidate c x) (rank_each x cs)
      (rank_candidate-steam_appid c x) (rank_each-AppidsAre x cs)

sorted_ranking-appids :
    (x : DealComparisonContext) (ns : List ℕ) (o : Option (List RankedDealCandidate))
    (r : DealRanking)
    → AppidsAre ns o
    → sorted_ranking x o ≡ inr r
    → Permᴰ (map (λ q. q.steam_appid) r.candidates) ns
sorted_ranking-appids x ns none r a h = cc
sorted_ranking-appids x ns (some rs) r a h = subst (Permᴰ _) a (
    map-Permᴰ (λ q. q.steam_appid)
      (subst (λ s. Permᴰ s rs) (ground arith) (sort_by-perm sort_key rs)))

-- A ranking holds every requested AppID, and no other, and none of them twice.
pub rank_deals-appids :
    (cs : List DealCandidate) (x : DealComparisonContext) (r : DealRanking)
    → rank_deals cs x ≡ inr r
    → Permᴰ (map (λ q. q.steam_appid) r.candidates) (map (λ c. c.steam_appid) cs)
      × ((n : ℕ) → count_where (λ q. q.steam_appid == n) r.candidates ≤ 1)
unfolding rank_deals
rank_deals-appids cs x r h =
    (all, λ n. is_unique-count (λ q. q.steam_appid) n r.candidates (is_unique-Permᴰ all ∙ distinct))
  where
    all : Permᴰ (map (λ q. q.steam_appid) r.candidates) (map (λ c. c.steam_appid) cs)
    all =
        sorted_ranking-appids x (map (λ c. c.steam_appid) cs) (rank_each x cs) r
          (rank_each-AppidsAre x cs) (ground arith)

    distinct : is_unique (map (λ (c : DealCandidate). c.steam_appid) cs) ≡ true
    distinct = ground arith

sorted_ranking-Reordered :
    (x : DealComparisonContext) (ns : List ℕ) (o p : Option (List RankedDealCandidate))
    → is_unique ns ≡ true
    → AppidsAre ns o
    → Reordered o p
    → sorted_ranking x o ≡ sorted_ranking x p
sorted_ranking-Reordered x ns none none u a d = refl
sorted_ranking-Reordered x ns none (some qs) u a d = absurd d
sorted_ranking-Reordered x ns (some rs) none u a d = absurd d
sorted_ranking-Reordered x ns (some rs) (some qs) u a d =
    ap (λ s. inr (record { context = x; candidates = s }))
      (sort_by-Permᴰ sort_key (λ r. r.steam_appid) sort_key_ties d (ap is_unique a ∙ u))

-- The same candidates in any order give the same ranking, or the same fault.
pub rank_deals_reordered :
    (x : DealComparisonContext) {cs ds : List DealCandidate}
    → Permᴰ cs ds
    → rank_deals cs x ≡ rank_deals ds x
unfolding rank_deals
rank_deals_reordered x {cs} {ds} d = elim (Bool-cases (unique cs)) [
  | inl u ↦ ground (
    arith,
    same,
    sorted_ranking-Reordered x _ (rank_each x cs) (rank_each x ds) u (rank_each-AppidsAre x cs)
        (rank_each-Reordered x d),
  )
  | inr v ↦ ground (arith, same)
]
  where
    unique : List DealCandidate → Bool
    unique es = is_unique (map (λ c. c.steam_appid) es)

    same : unique cs ≡ unique ds
    same = is_unique-Permᴰ (map-Permᴰ (λ c. c.steam_appid) d)
