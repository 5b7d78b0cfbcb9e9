-- ===== src/Scenarios/Storage.antt =====
-- Rankings of a few candidates, and the results of Ranking.Storage applied to them.
use mathlib.Core.List.{Permᴰ}
use mathlib.Core.Option
use steam_cli.Prelude.{true, none, some, [], ◌∷◌, map, ◌≡◌, refl, inl, inr, leb, arith}
use steam_cli.Ranking.Checks.{
  bad_target, repeated_appid, text_id, row_id, validate_name, validate_evidence_ids,
}
use steam_cli.Ranking.Storage.Candidate.{
  ReclaimCandidate, TravelCandidate, present, absent, unknown, fresh, stale, pass, undecided,
  excluded, check_travel,
}
use steam_cli.Ranking.Storage.Reclaim.{ReclaimRanking, reclaim_item, rank_reclaim_space}
use steam_cli.Ranking.Storage.Travel.{TravelRanking, travel_item, rank_travel_install}
use steam_cli.Ranking.Storage.OrderFree.{
  rank_reclaim_space_reordered, rank_travel_install_reordered,
}
use steam_cli.Ranking.Storage.Eligible.{
  reclaim_item-reclaim_eligibility, reclaim_item-fraction_bps, travel_item-is_excluded,
}

abbrev large : ReclaimCandidate
large = record {
  appid = 10;
  name = some "Large";
  installed = present;
  freshness = fresh;
  size_bytes = some 5000;
  evidence_ids = row_id 1 ∷ [];
  residual = present;
}

abbrev little : ReclaimCandidate
little = record {
  appid = 20;
  name = some "Little";
  installed = present;
  freshness = fresh;
  size_bytes = some 1000;
  evidence_ids = text_id "scan" ∷ [];
  residual = unknown;
}

abbrev gone : ReclaimCandidate
gone = record {
  appid = 30;
  name = none;
  installed = absent;
  freshness = fresh;
  size_bytes = none;
  evidence_ids = [];
  residual = absent;
}

abbrev reclaim_order : ReclaimRanking
reclaim_order = record {
  target_bytes = 2000;
  results = reclaim_item 2000 large ∷ reclaim_item 2000 little ∷ reclaim_item 2000 gone ∷ [];
}

reclaim_no_target : rank_reclaim_space (large ∷ []) 0 ≡ inl bad_target
unfolding rank_reclaim_space
reclaim_no_target = refl

reclaim_repeated : rank_reclaim_space (large ∷ large ∷ []) 2000 ≡ inl repeated_appid
unfolding rank_reclaim_space
reclaim_repeated = refl

rank_reclaim_space_reordered_example :
    rank_reclaim_space (large ∷ little ∷ []) 2000 ≡ rank_reclaim_space (little ∷ large ∷ []) 2000
rank_reclaim_space_reordered_example = rank_reclaim_space_reordered 2000 (Permᴰ.swap refl refl)

reclaim_item-reclaim_eligibility_example : (reclaim_item 2000 gone).eligibility ≡ excluded
reclaim_item-reclaim_eligibility_example = reclaim_item-reclaim_eligibility 2000 gone

reclaim_item-fraction_bps_example :
    (reclaim_item 2000 little).meets_target_alone
    ≡ Option.map (leb 10000) (reclaim_item 2000 little).target_fraction_bps
reclaim_item-fraction_bps_example = reclaim_item-fraction_bps 2000 little (omega arith)

abbrev compact : TravelCandidate
compact = record {
  appid = 40;
  name = some "Compact";
  ownership = present;
  ownership_freshness = fresh;
  installed = absent;
  installed_freshness = fresh;
  compatibility = pass;
  storage_lower_bytes = some 100;
  storage_upper_bytes = some 200;
  preference_score_bps = none;
  evidence_ids = [];
}

abbrev bulky : TravelCandidate
bulky = record {
  appid = 50;
  name = some "Bulky";
  ownership = present;
  ownership_freshness = stale;
  installed = absent;
  installed_freshness = fresh;
  compatibility = undecided;
  storage_lower_bytes = some 900;
  storage_upper_bytes = some 950;
  preference_score_bps = none;
  evidence_ids = [];
}

abbrev travel_ranking : TravelRanking
travel_ranking = record {
  budget_bytes = 500;
  results = travel_item 500 compact ∷ travel_item 500 bulky ∷ [];
}

travel_ranked : rank_travel_install (bulky ∷ compact ∷ []) 500 ≡ inr travel_ranking
unfolding rank_travel_install
travel_ranked = refl

rank_travel_install_reordered_example :
    rank_travel_install (bulky ∷ compact ∷ []) 500 ≡ rank_travel_install (compact ∷ bulky ∷ []) 500
rank_travel_install_reordered_example = rank_travel_install_reordered 500 (Permᴰ.swap refl refl)

bulky_accepted : check_travel (λ c. true) bulky ≡ none
unfolding check_travel validate_name validate_evidence_ids
bulky_accepted = refl

travel_item-is_excluded_example : (travel_item 500 bulky).eligibility ≡ excluded
travel_item-is_excluded_example = travel_item-is_excluded (λ c. true) 500 bulky bulky_accepted
