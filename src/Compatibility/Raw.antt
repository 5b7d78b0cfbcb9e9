-- ===== src/Compatibility/Raw.antt =====
-- The gates of a candidate before their evaluation, from `_assess` of src/steam_agent/compatibility.py.
use Prim.Native.Char.{Char}
use Prim.Native.String.{◌++◌ as append}
use steam_cli.Prelude.{
  Bool, true, false, not, if◌then◌else◌, Option, none, some, List, [], ◌∷◌, ◌++◌, String, first,
  ◌⊎◌, inr,
}
use steam_cli.Checked.{◌>>=◌}
use steam_cli.Compatibility.Texts.{Fault}
use steam_cli.Compatibility.Evidence.{
  GateState, pass, fail, PrimitiveEvidence, primitive_evidence, unknown_evidence,
}
use steam_cli.Compatibility.Target.{
  CompatibilityTarget, is_deck, RuntimeRisk, Presence, present, absent, unobserved, Impact,
  blocking, kind_name, FeatureEvidence, FeatureRequirement, same_feature,
}
use steam_cli.Compatibility.Candidate.{CompatibilityCandidate}
use steam_cli.Compatibility.Gate.{exact_review_for_target}

-- A gate before its evaluation: `(name, evidence, mandatory)`.
pub record RawGate : Type 0 where
  pub name : String
  pub evidence : PrimitiveEvidence
  pub mandatory : Bool

abbrev pub raw_gate : String → Bool → PrimitiveEvidence → RawGate
raw_gate name mandatory evidence = record {
  name = name;
  evidence = evidence;
  mandatory = mandatory;
}

abbrev pub is_observed : Presence → Bool
is_observed unobserved = false
is_observed _ = true

abbrev pub is_blocking : Impact → Bool
is_blocking blocking = true
is_blocking _ = false

-- The evidence of a risk with another state and condition: a new `PrimitiveEvidence`.
abbrev pub as_gate : PrimitiveEvidence → GateState → Option String → PrimitiveEvidence
as_gate evidence state condition = record evidence {
  state = state;
  conflict = false;
  unknown_reason = none;
  condition = condition;
}

-- A risk that is there fails if it blocks, and is a condition otherwise.
abbrev pub of_present : RuntimeRisk → PrimitiveEvidence
of_present risk =
    if is_blocking risk.impact
    then as_gate risk.evidence fail none
    else as_gate risk.evidence pass (some (append "runtime_risk:" risk.name))

module _ (is_printable : Char → Bool) where
  unfoldable pub evidence_for : Presence → RuntimeRisk → Fault ⊎ PrimitiveEvidence
  unfolding primitive_evidence
  evidence_for present risk = primitive_evidence is_printable (of_present risk)
  evidence_for absent risk = primitive_evidence is_printable (as_gate risk.evidence pass none)
  evidence_for unobserved risk = inr risk.evidence

  unfoldable pub risk_gates : List RuntimeRisk → Fault ⊎ List RawGate
  unfolding evidence_for
  risk_gates [] = inr []
  risk_gates (risk ∷ risks) = evidence_for risk.presence risk >>= λ evidence.
      risk_gates risks >>= λ rest.
      inr (raw_gate (append "runtime:" risk.name) (is_observed risk.presence) evidence ∷ rest)

  abbrev pub support_or : PrimitiveEvidence → Option FeatureEvidence → PrimitiveEvidence
  support_or missing none = missing
  support_or missing (some feature) = feature.support

  abbrev pub requirement_name : FeatureRequirement → String
  requirement_name r = append (kind_name r.kind) (append ":" r.name)

  -- The features have different keys, so the first match is the entry of the map.
  abbrev pub find_feature : List FeatureEvidence → FeatureRequirement → Option FeatureEvidence
  find_feature features r =
      first (λ (f : FeatureEvidence). same_feature r.kind r.name f.kind f.name) features

  unfoldable pub requirement_gates :
      List FeatureEvidence → List FeatureRequirement → Fault ⊎ List RawGate
  unfolding unknown_evidence
  requirement_gates features [] = inr []
  requirement_gates features (r ∷ rs) =
      unknown_evidence is_printable false "required_feature_not_observed" >>= λ missing.
      requirement_gates features rs >>= λ rest.
      inr (raw_gate (requirement_name r) true (support_or missing (find_feature features r)) ∷ rest)

  abbrev pub fixed_gates : CompatibilityCandidate → Bool → PrimitiveEvidence → List RawGate
  fixed_gates c deck review =
      raw_gate "declared_native_build" false c.declared_native_build
      ∷ raw_gate "effective_execution_support" (not deck) c.effective_execution_support
      ∷ raw_gate "architecture" (not deck) c.architecture
      ∷ raw_gate "meets_minimum" (not deck) c.meets_minimum
      ∷ raw_gate "exact_target_review" deck review
      ∷ raw_gate "readiness:installed" false c.installed
      ∷ raw_gate "readiness:visible_owned" false c.owned
      ∷ []

  unfoldable pub raw_gates :
      CompatibilityCandidate → CompatibilityTarget → List FeatureRequirement → Fault ⊎ List RawGate
  unfolding exact_review_for_target risk_gates requirement_gates
  raw_gates c target requirements =
      exact_review_for_target is_printable c.exact_target_review target >>= λ review.
      risk_gates c.runtime_risks >>= λ risks.
      requirement_gates c.features requirements >>= λ required.
      inr (fixed_gates c (is_deck target.kind) review ++ (risks ++ required))
