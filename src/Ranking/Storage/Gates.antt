-- ===== src/Ranking/Storage/Gates.antt =====
-- The gates of src/steam_agent/storage_ranking.py and the eligibility they give.
use steam_cli.Prelude.{
  ℕ, Bool, true, false, if◌then◌else◌, leb, ltb, Option, none, some, List, String, any,
}
use steam_cli.Ranking.Storage.Candidate.{
  EvidenceState, present, absent, unknown, Freshness, fresh, stale, unsure, GateState, pass, fail,
  undecided, Eligibility, eligible, conditional, excluded, TravelCandidate,
}

pub record Gate : Type 0 where
  pub name : String
  pub state : GateState
  pub reason : String

abbrev pub gate : String → GateState → String → Gate
gate name state reason = record { name = name; state = state; reason = reason }

abbrev pub is_fail : GateState → Bool
is_fail fail = true
is_fail _ = false

abbrev pub is_undecided : GateState → Bool
is_undecided undecided = true
is_undecided _ = false

-- `_presence_gate(state, "not_installed")`, the one call of it.
unfoldable pub presence_gate : EvidenceState → Gate
presence_gate present = gate "installed_present" pass "presence_observed"
presence_gate absent = gate "installed_present" fail "not_installed"
presence_gate unknown = gate "installed_present" undecided "presence_unknown"

unfoldable pub fresh_presence_gate : EvidenceState → Freshness → String → Gate
fresh_presence_gate absent f name = gate name fail "not_visible_owned"
fresh_presence_gate unknown f name = gate name undecided "ownership_unknown"
fresh_presence_gate present stale name = gate name undecided "ownership_stale"
fresh_presence_gate present unsure name = gate name undecided "ownership_unknown"
fresh_presence_gate present fresh name = gate name pass "fresh_visible_owned_presence"

unfoldable pub absence_gate : EvidenceState → Freshness → Gate
absence_gate s stale = gate "not_installed" undecided "installed_snapshot_stale"
absence_gate s unsure = gate "not_installed" undecided "installed_snapshot_unknown"
absence_gate present fresh = gate "not_installed" fail "already_installed"
absence_gate absent fresh = gate "not_installed" pass "fresh_absence_observed"
absence_gate unknown fresh = gate "not_installed" undecided "installation_unknown"

unfoldable pub compatibility_gate : GateState → Gate
compatibility_gate pass = gate "compatibility" pass "compatible_for_selected_target"
compatibility_gate fail = gate "compatibility" fail "known_incompatible_for_selected_target"
compatibility_gate undecided = gate "compatibility" undecided "compatibility_not_established"

unfoldable pub storage_fit_gate : TravelCandidate → ℕ → Gate
storage_fit_gate item budget_bytes = elim item.storage_lower_bytes [
  | none ↦ gate "declared_minimum_storage_fit" undecided "minimum_storage_not_parsed"
  | some lower ↦ elim item.storage_upper_bytes [
    | none ↦ gate "declared_minimum_storage_fit" undecided "minimum_storage_not_parsed"
    | some upper ↦
        if leb upper budget_bytes
        then gate "declared_minimum_storage_fit" pass "declared_upper_bound_within_budget"
        else (if ltb budget_bytes lower
            then gate "declared_minimum_storage_fit" fail "declared_lower_bound_exceeds_budget"
            else gate "declared_minimum_storage_fit" undecided
                "budget_inside_unit_ambiguity_interval")
  ]
]

unfoldable pub freshness_gate : Freshness → Gate
freshness_gate fresh = gate "installed_observation_fresh" pass "observation_fresh"
freshness_gate stale = gate "installed_observation_fresh" undecided "observation_stale"
freshness_gate unsure = gate "installed_observation_fresh" undecided "observation_unknown"

unfoldable pub size_gate : Option ℕ → Gate
size_gate (some size) = gate "reclaim_size_known" pass "manifest_size_known"
size_gate none = gate "reclaim_size_known" undecided "size_not_observed"

unfoldable pub eligibility_of : List Gate → Eligibility
eligibility_of gates =
    if any (λ g. is_fail g.state) gates
    then excluded
    else (if any (λ g. is_undecided g.state) gates then conditional else eligible)
