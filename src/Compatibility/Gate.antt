-- ===== src/Compatibility/Gate.antt =====
-- `_gate`, `_effective_fact` and `_exact_review_for_target` of src/steam_agent/compatibility.py.
use Prim.Native.Char.{Char}
use Prim.Native.String.{◌++◌ as append}
use text.Mathlib.Text.{starts_with}
use steam_cli.Prelude.{
  ℕ, Bool, false, not, ◌&&◌, ◌||◌, if◌then◌else◌, Option, none, some, List, [], String, ◌⊎◌, inr,
}
use steam_cli.Compatibility.Texts.{Fault}
use steam_cli.Compatibility.Evidence.{
  GateState, unknown, is_unknown, Freshness, fresh, SupportLevel, local, is_expired, is_stale,
  PrimitiveEvidence, primitive_evidence, unknown_evidence,
}
use steam_cli.Compatibility.Target.{CompatibilityTarget, TargetReview, same_target}
use steam_cli.Compatibility.Candidate.{GateOverride}

pub record GateResult : Type 0 where
  pub name : String
  pub original : GateState
  pub effective : GateState
  pub mandatory : Bool
  pub original_condition : Option String
  pub original_source : Option String
  pub original_support_level : SupportLevel
  pub original_observed_at : Option ℕ
  pub original_freshness : Freshness
  pub original_conflict : Bool
  pub original_unknown_reason : Option String
  pub original_evidence_ids : List String
  pub override_name : Option String
  pub override_evidence_ids : List String
  pub effective_condition : Option String
  pub effective_unknown_reason : Option String
  pub effective_source : Option String
  pub effective_support_level : SupportLevel
  pub effective_observed_at : Option ℕ
  pub effective_freshness : Freshness
  pub effective_evidence_ids : List String

-- Evidence that is known and too old for its gate.
unfoldable pub freshness_degraded : String → PrimitiveEvidence → Bool
freshness_degraded name evidence =
    not (is_unknown evidence.state)
    && (is_expired evidence.freshness
        || (starts_with name "readiness:" && is_stale evidence.freshness))

-- The result without an override, given whether the evidence is too old.
unfoldable pub observed_gate : String → PrimitiveEvidence → Bool → Bool → GateResult
observed_gate name evidence mandatory degraded = record {
  name = name;
  original = evidence.state;
  effective = if degraded then unknown else evidence.state;
  mandatory = mandatory;
  original_condition = evidence.condition;
  original_source = evidence.source;
  original_support_level = evidence.support_level;
  original_observed_at = evidence.observed_at;
  original_freshness = evidence.freshness;
  original_conflict = evidence.conflict;
  original_unknown_reason = evidence.unknown_reason;
  original_evidence_ids = evidence.evidence_ids;
  override_name = none;
  override_evidence_ids = [];
  effective_condition = evidence.condition;
  effective_unknown_reason =
      if degraded
      then some (
          if is_expired evidence.freshness
          then "evidence_expired"
          else "evidence_stale_for_ready_now")
      else evidence.unknown_reason;
  effective_source = evidence.source;
  effective_support_level = evidence.support_level;
  effective_observed_at = evidence.observed_at;
  effective_freshness = evidence.freshness;
  effective_evidence_ids = evidence.evidence_ids;
}

unfoldable pub overridden : GateOverride → GateResult → GateResult
overridden override gate = record gate {
  effective = override.effective;
  override_name = some override.name;
  override_evidence_ids = override.evidence_ids;
  effective_condition = none;
  effective_unknown_reason =
      if is_unknown override.effective then some "query_override_selected_unknown" else none;
  effective_source = some (append "query_override:" override.name);
  effective_support_level = local;
  effective_observed_at = some override.applied_at;
  effective_freshness = fresh;
  effective_evidence_ids = override.evidence_ids;
}

unfoldable pub gate_result : String → PrimitiveEvidence → Bool → Option GateOverride → GateResult
unfolding freshness_degraded observed_gate overridden
gate_result name evidence mandatory none =
    observed_gate name evidence mandatory (freshness_degraded name evidence)
gate_result name evidence mandatory (some override) =
    overridden override (observed_gate name evidence mandatory (freshness_degraded name evidence))

abbrev pub expired_fact : PrimitiveEvidence → PrimitiveEvidence
expired_fact evidence = record evidence {
  state = unknown;
  conflict = false;
  unknown_reason = some "evidence_expired";
  condition = none;
}

module _ (is_printable : Char → Bool) where
  unfoldable pub effective_fact : PrimitiveEvidence → Fault ⊎ PrimitiveEvidence
  unfolding primitive_evidence
  effective_fact evidence =
      if is_unknown evidence.state || not (is_expired evidence.freshness)
      then inr evidence
      else primitive_evidence is_printable (expired_fact evidence)

  unfoldable pub exact_review_for_target :
      Option TargetReview → CompatibilityTarget → Fault ⊎ PrimitiveEvidence
  unfolding unknown_evidence
  exact_review_for_target none target =
      unknown_evidence is_printable false "exact_target_review_not_observed"
  exact_review_for_target (some review) target =
      if not (same_target review.target target)
      then unknown_evidence is_printable false "target_review_is_for_a_different_target"
      else inr review.evidence
