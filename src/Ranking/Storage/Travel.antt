-- ===== src/Ranking/Storage/Travel.antt =====
-- `rank_travel_install` of src/steam_agent/storage_ranking.py.
use steam_cli.Prelude.{
  ℕ, if◌then◌else◌, Option, none, some, List, [], ◌∷◌, map, ◌++◌, String, any, ◌⊎◌,
}
use steam_cli.Ranking.Order.{ℤ, pos, Key, number, nat, negate}
use steam_cli.Ranking.Sort.{sort_by}
use steam_cli.Ranking.Checks.{
  Fault, EvidenceId, ◌then_check◌, checked, validate_candidates, validate_positive_bytes,
}
use steam_cli.Ranking.Storage.Candidate.{
  TravelCandidate, GateState, pass, fail, undecided, Eligibility, eligible, conditional, excluded,
  flag_none, or_zero,
}
use steam_cli.Ranking.Storage.Gates.{
  Gate, fresh_presence_gate, absence_gate, compatibility_gate, storage_fit_gate, is_fail,
}

-- The fields that are always "unknown" are left out.
pub record TravelResult : Type 0 where
  pub appid : ℕ
  pub name : Option String
  pub eligibility : Eligibility
  pub gates : List Gate
  pub declared_minimum_storage_lower_bytes : Option ℕ
  pub declared_minimum_storage_upper_bytes : Option ℕ
  pub preference_score_bps : Option ℤ
  pub warning : String
  pub evidence_ids : List EvidenceId

pub record TravelRanking : Type 0 where
  pub budget_bytes : ℕ
  pub results : List TravelResult

abbrev pub travel_gates : ℕ → TravelCandidate → List Gate
travel_gates budget item =
    fresh_presence_gate item.ownership item.ownership_freshness "visible_owned"
    ∷ absence_gate item.installed item.installed_freshness
    ∷ compatibility_gate item.compatibility
    ∷ storage_fit_gate item budget
    ∷ []

unfoldable pub travel_item : ℕ → TravelCandidate → TravelResult
unfolding fresh_presence_gate absence_gate compatibility_gate storage_fit_gate
travel_item budget item = record {
  appid = item.appid;
  name = item.name;
  eligibility =
      (if any (λ g. is_fail g.state) (travel_gates budget item) then excluded else conditional);
  gates = travel_gates budget item;
  declared_minimum_storage_lower_bytes = item.storage_lower_bytes;
  declared_minimum_storage_upper_bytes = item.storage_upper_bytes;
  preference_score_bps = item.preference_score_bps;
  warning = "declared_minimum_storage_does_not_prove_install_feasibility";
  evidence_ids = item.evidence_ids;
}

abbrev pub travel_order : Eligibility → ℕ
travel_order conditional = 0
travel_order excluded = 1
travel_order eligible = 0

abbrev state_order : GateState → ℕ
state_order pass = 0
state_order undecided = 1
state_order fail = 2

-- The states of `gates[0]` to `gates[3]`.
abbrev pub state_keys : List Gate → Key
state_keys [] = []
state_keys (g ∷ gs) = nat (state_order g.state) ∷ state_keys gs

unfoldable pub travel_key : TravelResult → Key
travel_key r =
    (nat (travel_order r.eligibility) ∷ state_keys r.gates)
    ++ (number (elim r.preference_score_bps [ none ↦ pos 0 | some score ↦ negate score ])
        ∷ nat (flag_none r.declared_minimum_storage_upper_bytes)
        ∷ nat (or_zero r.declared_minimum_storage_upper_bytes)
        ∷ nat r.appid
        ∷ [])

unfoldable pub rank_travel_install : List TravelCandidate → ℕ → Fault ⊎ TravelRanking
unfolding validate_candidates travel_item travel_key sort_by
rank_travel_install candidates budget =
    checked
      (validate_candidates (map (λ c. c.appid) candidates)
        then_check validate_positive_bytes budget)
      (record {
        budget_bytes = budget;
        results = sort_by travel_key (map (travel_item budget) candidates);
      })
