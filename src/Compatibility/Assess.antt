-- ===== src/Compatibility/Assess.antt =====
-- `_assess` of src/steam_agent/compatibility.py: what follows from the gates of a candidate.
use Prim.Native.Char.{Char}
use steam_cli.Prelude.{
  ℕ, Bool, true, false, not, ◌&&◌, ◌||◌, if◌then◌else◌, Option, none, some, is_some, List, [], ◌∷◌,
  ◌++◌, String, str_eq, any, first, select, map, ◌⊎◌, inl, inr,
}
use steam_cli.Checked.{◌>>=◌}
use steam_cli.Compatibility.Texts.{Fault, unevaluated_gate, sort_texts}
use steam_cli.Compatibility.Evidence.{
  GateState, fail, unknown, is_pass, is_fail, is_unknown, Freshness, fresh, PrimitiveEvidence,
}
use steam_cli.Compatibility.Target.{
  CompatibilityTarget, RuntimeRisk, FeatureKind, accessibility, input, language, kind_name,
  FeatureEvidence, FeatureRequirement,
}
use steam_cli.Compatibility.Candidate.{CompatibilityCandidate, GateOverride}
use steam_cli.Compatibility.Gate.{GateResult, gate_result, effective_fact}
use steam_cli.Compatibility.Raw.{RawGate, raw_gates}

-- The overrides of an AppID name different gates, so the first match is the entry of the map.
abbrev pub override_for : List GateOverride → String → Option GateOverride
override_for overrides name = first (λ (o : GateOverride). str_eq o.gate name) overrides

abbrev pub is_evaluated : List RawGate → GateOverride → Bool
is_evaluated raw o = any (λ (r : RawGate). str_eq r.name o.gate) raw

unfoldable pub evaluate : List GateOverride → List RawGate → List GateResult
unfolding gate_result
evaluate overrides raw =
    map (λ (r : RawGate). gate_result r.name r.evidence r.mandatory (override_for overrides r.name))
      raw

-- `undetermined` is the literal "unknown".
pub data CompatibilityState : Type 0 where
  compatible incompatible conditional undetermined : CompatibilityState

abbrev pub fails : GateResult → Bool
fails g = is_fail g.effective

abbrev pub is_conditional_pass : GateResult → Bool
is_conditional_pass g = is_pass g.effective && is_some g.effective_condition

abbrev pub lacks : GateResult → Bool
lacks g = is_unknown g.effective

unfoldable pub compatibility_of : List GateResult → CompatibilityState
compatibility_of mandatory =
    if any fails mandatory
    then incompatible
    else if any lacks mandatory
    then undetermined
    else if any is_conditional_pass mandatory
    then conditional
    else compatible

-- `next(…)`; the gate is one of the fixed ones.
abbrev pub is_not_installed : List GateResult → Bool
is_not_installed gates =
    elim (first (λ (g : GateResult). str_eq g.name "readiness:installed") gates) [
      | none ↦ false
      | some g ↦ fails g
    ]

abbrev is_incompatible : CompatibilityState → Bool
is_incompatible incompatible = true
is_incompatible _ = false

-- Never `pass`: whether a title can be started now takes facts of another kind.
unfoldable pub playable_now : List GateResult → CompatibilityState → GateState
playable_now gates state = if is_not_installed gates || is_incompatible state then fail else unknown

abbrev is_fresh : Freshness → Bool
is_fresh fresh = true
is_fresh _ = false

abbrev reason_of : CompatibilityState → String
reason_of incompatible = "decisive_compatibility_gate_failed"
reason_of conditional = "known_manual_or_runtime_condition"
reason_of undetermined = "required_compatibility_evidence_unknown"
reason_of compatible = "all_mandatory_compatibility_gates_passed"

-- The members of the set are different texts.
unfoldable pub reasons_of : List GateResult → CompatibilityState → List String
unfolding playable_now
reasons_of gates state = sort_texts (
    reason_of state
    ∷ ((if is_unknown (playable_now gates state)
          then "playable_now_requires_m7_operational_facts" ∷ []
          else [])
        ++ (if is_not_installed gates then "known_not_installed" ∷ [] else [])))

abbrev names_where : (GateResult → Bool) → List GateResult → List String
names_where p gates = sort_texts (map (λ (g : GateResult). g.name) (select p gates))

abbrev pub is_mandatory : GateResult → Bool
is_mandatory g = g.mandatory

abbrev pub in_conflict : GateResult → Bool
in_conflict g = g.original_conflict

abbrev pub is_dated : GateResult → Bool
is_dated g = not (is_fresh g.original_freshness)

-- Whether the assessment is "partial".
unfoldable pub is_partial : List GateResult → CompatibilityState → PrimitiveEvidence → Bool
unfolding playable_now
is_partial gates state likely =
    any lacks gates
    || any in_conflict gates
    || any is_dated (select is_mandatory gates)
    || is_unknown likely.state
    || not (is_fresh likely.freshness)
    || is_unknown (playable_now gates state)

pub record CompatibilityAssessment : Type 0 where
  pub appid : ℕ
  pub target : CompatibilityTarget
  pub compatibility : CompatibilityState
  pub playable : GateState
  pub likely_good_experience_original : PrimitiveEvidence
  pub likely_good_experience : PrimitiveEvidence
  pub gates : List GateResult
  pub runtime_risks : List RuntimeRisk
  pub accessibility_features : List FeatureEvidence
  pub input_features : List FeatureEvidence
  pub language_features : List FeatureEvidence
  pub reasons : List String
  pub unknowns : List String
  pub conflicts : List String
  pub is_complete : Bool

abbrev of_kind : FeatureKind → List FeatureEvidence → List FeatureEvidence
of_kind k = select (λ (f : FeatureEvidence). str_eq (kind_name f.kind) (kind_name k))

unfoldable pub conclude :
    CompatibilityCandidate
    → CompatibilityTarget
    → List GateResult
    → PrimitiveEvidence
    → CompatibilityAssessment
unfolding compatibility_of reasons_of is_partial
conclude c target gates likely =
    let state = compatibility_of (select is_mandatory gates) in
    record {
      appid = c.appid;
      target = target;
      compatibility = state;
      playable = playable_now gates state;
      likely_good_experience_original = c.likely_good_experience;
      likely_good_experience = likely;
      gates = gates;
      runtime_risks = c.runtime_risks;
      accessibility_features = of_kind accessibility c.features;
      input_features = of_kind input c.features;
      language_features = of_kind language c.features;
      reasons = reasons_of gates state;
      unknowns = names_where lacks gates;
      conflicts = names_where in_conflict gates;
      is_complete = not (is_partial gates state c.likely_good_experience);
    }

-- The end of `_assess`, after the gates are gathered.
unfoldable pub assess_raw :
    (Char → Bool)
    → CompatibilityCandidate
    → CompatibilityTarget
    → List GateOverride
    → List RawGate
    → Fault ⊎ CompatibilityAssessment
unfolding evaluate effective_fact conclude
assess_raw is_printable c target overrides raw =
    if any (λ o. not (is_evaluated raw o)) overrides
    then inl unevaluated_gate
    else effective_fact is_printable c.likely_good_experience >>= λ likely.
        inr (conclude c target (evaluate overrides raw) likely)

unfoldable pub assess :
    (Char → Bool)
    → CompatibilityCandidate
    → CompatibilityTarget
    → List FeatureRequirement
    → List GateOverride
    → Fault ⊎ CompatibilityAssessment
unfolding raw_gates assess_raw
assess is_printable c target requirements overrides =
    raw_gates is_printable c target requirements >>= λ raw.
    assess_raw is_printable c target overrides raw
