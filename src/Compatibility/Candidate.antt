-- ===== src/Compatibility/Candidate.antt =====
-- `CompatibilityCandidate` and `GateOverride` of src/steam_agent/compatibility.py, the checks of their
-- constructors, and `_missing_candidate`.
use Prim.Native.Char.{Char}
use steam_cli.Prelude.{
  ℕ, Bool, false, not, ◌||◌, ltb, ◌==◌, Option, none, List, [], String, str_eq, length, ◌⊎◌,
}
use steam_cli.Checked.{fault_if, ◌then_check◌, checked, ◌>>=◌}
use steam_cli.Ranking.Sort.{sort_by}
use steam_cli.Compatibility.Texts.{
  Fault, Check, too_many_components, repeated_components, bad_override_name, bad_override_gate,
  override_without_lineage, unique_by, check_appid, check_ids, is_slug, is_gate, sort_texts,
  text_key,
}
use steam_cli.Compatibility.Evidence.{GateState, PrimitiveEvidence, unknown_evidence}
use steam_cli.Compatibility.Target.{
  CompatibilityTarget, RuntimeRisk, FeatureEvidence, TargetReview, feature_key, same_feature,
}

abbrev pub max_components : ℕ
max_components = 256

pub record CompatibilityCandidate : Type 0 where
  pub appid : ℕ
  pub target : CompatibilityTarget
  pub declared_native_build : PrimitiveEvidence
  pub effective_execution_support : PrimitiveEvidence
  pub architecture : PrimitiveEvidence
  pub meets_minimum : PrimitiveEvidence
  pub exact_target_review : Option TargetReview
  pub likely_good_experience : PrimitiveEvidence
  pub installed : PrimitiveEvidence
  pub owned : PrimitiveEvidence
  pub runtime_risks : List RuntimeRisk
  pub features : List FeatureEvidence

unfoldable pub check_candidate : CompatibilityCandidate → Check
unfolding unique_by
check_candidate c =
    check_appid c.appid
    then_check fault_if
        (ltb max_components (length c.runtime_risks) || ltb max_components (length c.features))
        too_many_components
    then_check fault_if
        (not (unique_by (λ (r s : RuntimeRisk). str_eq r.name s.name) c.runtime_risks)
          || not (
              unique_by (λ (f g : FeatureEvidence). same_feature f.kind f.name g.kind g.name)
                c.features))
        repeated_components

-- The constructor: the checks, with the risks and the features sorted.
unfoldable pub compatibility_candidate : CompatibilityCandidate → Fault ⊎ CompatibilityCandidate
unfolding check_candidate
compatibility_candidate c = checked (check_candidate c) (record c {
  runtime_risks = sort_by (λ (r : RuntimeRisk). text_key r.name) c.runtime_risks;
  features = sort_by (λ (f : FeatureEvidence). feature_key f.kind f.name) c.features;
})

abbrev pub nothing_known : ℕ → CompatibilityTarget → PrimitiveEvidence → CompatibilityCandidate
nothing_known appid target missing = record {
  appid = appid;
  target = target;
  declared_native_build = missing;
  effective_execution_support = missing;
  architecture = missing;
  meets_minimum = missing;
  exact_target_review = none;
  likely_good_experience = missing;
  installed = missing;
  owned = missing;
  runtime_risks = [];
  features = [];
}

unfoldable pub missing_candidate :
    (Char → Bool) → ℕ → CompatibilityTarget → Fault ⊎ CompatibilityCandidate
unfolding unknown_evidence compatibility_candidate
missing_candidate is_printable appid target =
    unknown_evidence is_printable false "candidate_evidence_unavailable" >>= λ missing.
    compatibility_candidate (nothing_known appid target missing)

pub record GateOverride : Type 0 where
  pub name : String
  pub appid : ℕ
  pub gate : String
  pub effective : GateState
  pub evidence_ids : List String
  pub applied_at : ℕ

unfoldable pub check_override : (Char → Bool) → GateOverride → Check
unfolding check_ids is_slug is_gate
check_override is_printable o =
    fault_if (not (is_slug o.name)) bad_override_name
    then_check check_appid o.appid
    then_check fault_if (not (is_gate o.gate)) bad_override_gate
    then_check check_ids is_printable o.evidence_ids
    then_check fault_if (length o.evidence_ids == 0) override_without_lineage

unfoldable pub gate_override : (Char → Bool) → GateOverride → Fault ⊎ GateOverride
unfolding check_override
gate_override is_printable o =
    checked (check_override is_printable o) (record o { evidence_ids = sort_texts o.evidence_ids })
