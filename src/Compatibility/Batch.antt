-- ===== src/Compatibility/Batch.antt =====
-- `assess_compatibility` and `validate_compatibility_request` of src/steam_agent/compatibility.py.
use Prim.Native.Char.{Char}
use steam_cli.Prelude.{
  ℕ, ◌+◌, ◌*◌, Bool, not, ◌&&◌, ◌||◌, leb, ltb, ◌==◌, Option, none, some, List, [], ◌∷◌, str_eq,
  any, all, first, select, length, map, ◌⊎◌, inr,
}
use steam_cli.Checked.{fault_if, ◌then_check◌, ◌>>=◌, checked}
use steam_cli.Ranking.Order.{nat}
use steam_cli.Ranking.Sort.{sort_by}
use steam_cli.Ranking.Reorder.{is_unique}
use steam_cli.Compatibility.Texts.{
  Fault, Check, bad_capacity, too_many_appids, too_many_requests, repeated_appids, bad_appid,
  repeated_requirements, repeated_overrides, override_not_requested, too_much_work,
  repeated_candidates, candidate_not_requested, candidate_off_target, unique_by,
}
use steam_cli.Compatibility.Target.{
  CompatibilityTarget, FeatureRequirement, same_target, same_feature, feature_key,
}
use steam_cli.Compatibility.Candidate.{
  CompatibilityCandidate, GateOverride, max_components, missing_candidate,
}
use steam_cli.Compatibility.Assess.{CompatibilityAssessment, assess}

abbrev pub max_items : ℕ
max_items = 100000

abbrev pub max_total_gates : ℕ
max_total_gates = 1000000

abbrev pub is_bad_appid : ℕ → Bool
is_bad_appid n = not (leb 1 n && leb n 4294967295)

abbrev pub is_in : List ℕ → ℕ → Bool
is_in ns n = any (λ m. m == n) ns

abbrev pub same_requirement : FeatureRequirement → FeatureRequirement → Bool
same_requirement r s = same_feature r.kind r.name s.kind s.name

abbrev pub same_override : GateOverride → GateOverride → Bool
same_override o p = (o.appid == p.appid) && str_eq o.gate p.gate

unfoldable pub validate_compatibility_request :
    List ℕ → List FeatureRequirement → List GateOverride → ℕ → Check
unfolding is_unique unique_by
validate_compatibility_request requested requirements overrides capacity =
    fault_if (not (leb capacity (2 * max_components))) bad_capacity
    then_check fault_if (ltb max_items (length requested)) too_many_appids
    then_check fault_if
        (ltb max_components (length requirements) || ltb max_items (length overrides))
        too_many_requests
    then_check fault_if (any is_bad_appid requested) bad_appid
    then_check fault_if (not (is_unique requested)) repeated_appids
    then_check fault_if (not (unique_by same_requirement requirements)) repeated_requirements
    then_check fault_if (not (unique_by same_override overrides)) repeated_overrides
    then_check fault_if (any (λ (o : GateOverride). not (is_in requested o.appid)) overrides)
        override_not_requested
    then_check fault_if
        (ltb max_total_gates (length requested * (7 + length requirements + capacity)))
        too_much_work

abbrev pub component_count : CompatibilityCandidate → ℕ
component_count c = length c.runtime_risks + length c.features

abbrev pub component_counts : List CompatibilityCandidate → ℕ
component_counts [] = 0
component_counts (c ∷ cs) = component_count c + component_counts cs

unfoldable pub validate_batch :
    List ℕ
    → List CompatibilityCandidate
    → CompatibilityTarget
    → List FeatureRequirement
    → List GateOverride
    → Check
unfolding validate_compatibility_request is_unique
validate_batch requested candidates target requirements overrides =
    validate_compatibility_request requested requirements overrides 0
    then_check fault_if (not (is_unique (map (λ (c : CompatibilityCandidate). c.appid) candidates)))
        repeated_candidates
    then_check fault_if
        (any (λ (c : CompatibilityCandidate). not (is_in requested c.appid)) candidates)
        candidate_not_requested
    then_check fault_if
        (any (λ (c : CompatibilityCandidate). not (same_target c.target target)) candidates)
        candidate_off_target
    then_check fault_if
        (ltb max_total_gates
          (length requested * (7 + length requirements) + component_counts candidates))
        too_much_work

pub record CompatibilityBatch : Type 0 where
  pub target : CompatibilityTarget
  pub requested_appids : List ℕ
  pub results : List CompatibilityAssessment
  pub is_complete : Bool

-- The AppIDs are different, so the first match is the entry of the map.
abbrev pub candidate_for : List CompatibilityCandidate → ℕ → Option CompatibilityCandidate
candidate_for candidates appid = first (λ (c : CompatibilityCandidate). c.appid == appid) candidates

abbrev pub overrides_for : List GateOverride → ℕ → List GateOverride
overrides_for overrides appid = select (λ (o : GateOverride). o.appid == appid) overrides

module _ (is_printable : Char → Bool) (target : CompatibilityTarget)
    (requirements : List FeatureRequirement) where
  abbrev pub sorted_requirements : List FeatureRequirement
  sorted_requirements = sort_by (λ (r : FeatureRequirement). feature_key r.kind r.name) requirements

  abbrev pub candidate_or_missing :
      ℕ → Option CompatibilityCandidate → Fault ⊎ CompatibilityCandidate
  candidate_or_missing appid none = missing_candidate is_printable appid target
  candidate_or_missing appid (some c) = inr c

  unfoldable pub assess_one :
      List CompatibilityCandidate → List GateOverride → ℕ → Fault ⊎ CompatibilityAssessment
  unfolding missing_candidate assess
  assess_one candidates overrides appid =
      candidate_or_missing appid (candidate_for candidates appid) >>= λ c.
      assess is_printable c target sorted_requirements (overrides_for overrides appid)

unfoldable pub assess_each :
    (ℕ → Fault ⊎ CompatibilityAssessment) → List ℕ → Fault ⊎ List CompatibilityAssessment
assess_each one [] = inr []
assess_each one (n ∷ ns) =
    one n >>= λ result. assess_each one ns >>= λ results. inr (result ∷ results)

abbrev pub sort_appids : List ℕ → List ℕ
sort_appids = sort_by (λ n. nat n ∷ [])

abbrev pub batch_of :
    CompatibilityTarget → List ℕ → List CompatibilityAssessment → CompatibilityBatch
batch_of target appids results = record {
  target = target;
  requested_appids = appids;
  results = results;
  is_complete = all (λ (a : CompatibilityAssessment). a.is_complete) results;
}

unfoldable pub assess_compatibility :
    (Char → Bool)
    → List ℕ
    → List CompatibilityCandidate
    → CompatibilityTarget
    → List FeatureRequirement
    → List GateOverride
    → Fault ⊎ CompatibilityBatch
unfolding validate_batch assess_one assess_each
assess_compatibility is_printable requested candidates target requirements overrides =
    checked (validate_batch requested candidates target requirements overrides) tt >>= λ _.
    assess_each (assess_one is_printable target requirements candidates overrides)
      (sort_appids requested)
    >>= λ results. inr (batch_of target (sort_appids requested) results)
