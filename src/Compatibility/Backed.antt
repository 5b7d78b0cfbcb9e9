-- ===== src/Compatibility/Backed.antt =====
-- What stands behind a title that src/steam_agent/compatibility.py calls compatible.
use Prim.Native.Char.{Char}
use mathlib.Core.Path.{subst}
use steam_cli.Prelude.{
  ℕ, ◌<◌, Bool, true, false, not, if◌then◌else◌, ◌==◌, Option, none, some, is_some, String, List,
  [], ◌∷◌, any, select, length, ◌⊎◌, inl, inr, ◌≡◌, refl, ap, arith, All, All-first,
}
use steam_cli.Checked.{>>=-inr, inr_inj, unless_raised}
use steam_cli.Compatibility.Texts.{unevaluated_gate}
use steam_cli.Compatibility.Evidence.{
  GateState, pass, fail, unknown, is_unknown, is_pass, is_fail, is_unsure, is_expired,
  PrimitiveEvidence,
}
use steam_cli.Compatibility.Target.{CompatibilityTarget, FeatureRequirement}
use steam_cli.Compatibility.Candidate.{CompatibilityCandidate, GateOverride}
use steam_cli.Compatibility.Gate.{
  GateResult, freshness_degraded, observed_gate, overridden, gate_result, effective_fact,
}
use steam_cli.Compatibility.Raw.{RawGate, raw_gates}
use steam_cli.Compatibility.Assess.{
  compatible, fails, lacks, is_conditional_pass, compatibility_of, is_mandatory, override_for,
  is_evaluated, evaluate, CompatibilityAssessment, conclude, assess_raw, assess,
}
use steam_cli.Compatibility.Batch.{
  CompatibilityBatch, candidate_for, overrides_for, sorted_requirements, candidate_or_missing,
  assess_one, sort_appids, assess_compatibility,
}
use steam_cli.Compatibility.Attributed.{IsMade}
use steam_cli.Compatibility.Backing.{
  IsGrounded, AreMade, raw_gates-AreMade, missing_candidate-IsGrounded,
}
use steam_cli.Compatibility.Results.{Each, assess_one-found, Each-assess_compatibility}

-- A gate that an override of the request passes.
abbrev IsOverridden : List GateOverride → GateResult → Type 0
IsOverridden overrides g =
    (o : GateOverride) × (override_for overrides g.name ≡ some o)
    × (o.effective ≡ pass)
    × (g.override_name ≡ some o.name)
    × (g.effective_evidence_ids ≡ o.evidence_ids)

-- A gate that passes on its evidence: known, unconditional, attributed and not expired.
pub record IsObserved (g : GateResult) : Type 0 where
  pub passed : g.original ≡ pass
  pub unconditional : g.original_condition ≡ none
  pub source : is_some g.original_source ≡ true
  pub observed : is_some g.original_observed_at ≡ true
  pub lineage : 0 < length g.original_evidence_ids
  pub dated : is_unsure g.original_freshness ≡ false
  pub current : is_expired g.original_freshness ≡ false
  pub agreed : g.original_conflict ≡ false
  pub own : g.effective_evidence_ids ≡ g.original_evidence_ids

abbrev pub IsBacked : List GateOverride → GateResult → Type 0
IsBacked overrides g = IsOverridden overrides g ⊎ IsObserved g

PassesAlone : GateResult → Type 0
PassesAlone g = (fails g ≡ false) × (lacks g ≡ false) × (is_conditional_pass g ≡ false)

is_pass_of : (s : GateState) → is_fail s ≡ false → is_unknown s ≡ false → s ≡ pass
is_pass_of pass f u = refl
is_pass_of fail f u = cc
is_pass_of unknown f u = cc

is_none_of : (o : Option String) → is_some o ≡ false → o ≡ none
is_none_of none h = refl
is_none_of (some s) h = cc

current_of :
    (name : String) (e : PrimitiveEvidence)
    → freshness_degraded name e ≡ false
    → is_unknown e.state ≡ false
    → is_expired e.freshness ≡ false
unfolding freshness_degraded
current_of name e k h = ground arith

observed_gate-IsObserved :
    (name : String) (e : PrimitiveEvidence) (mandatory d : Bool)
    → IsMade e
    → freshness_degraded name e ≡ d
    → PassesAlone (observed_gate name e mandatory d)
    → IsObserved (observed_gate name e mandatory d)
unfolding observed_gate PassesAlone
observed_gate-IsObserved name e mandatory true m k h = cc
observed_gate-IsObserved name e mandatory false (inl u) k h = cc
observed_gate-IsObserved name e mandatory false (inr m) k h =
    let passed = is_pass_of e.state h.0 h.1 in
    record {
      passed = passed;
      unconditional = is_none_of e.condition (ground (arith, ap is_pass passed));
      source = m.source;
      observed = m.observed;
      lineage = m.lineage;
      dated = m.dated;
      current = current_of name e k h.1;
      agreed = m.agreed;
      own = refl;
    }

gate_result-IsBacked :
    (overrides : List GateOverride) (name : String) (e : PrimitiveEvidence) (mandatory : Bool)
    (o : Option GateOverride)
    → IsMade e
    → override_for overrides name ≡ o
    → PassesAlone (gate_result name e mandatory o)
    → IsBacked overrides (gate_result name e mandatory o)
unfolding gate_result
gate_result-IsBacked overrides name e mandatory none m found h =
    inr (observed_gate-IsObserved name e mandatory (freshness_degraded name e) m refl h)
gate_result-IsBacked overrides name e mandatory (some o) m found h =
    inl (o, found, unfold PassesAlone overridden in is_pass_of o.effective h.0 h.1, refl, refl)

-- The tests on the mandatory gates say that each passes alone.
compatible_tests :
    (gs : List GateResult)
    → compatibility_of gs ≡ compatible
    → (any fails gs ≡ false) × (any lacks gs ≡ false) × (any is_conditional_pass gs ≡ false)
unfolding compatibility_of
compatible_tests gs h = (ground arith, ground arith, ground arith)

evaluate-IsBacked :
    (overrides : List GateOverride) (raw : List RawGate)
    → AreMade raw
    → any fails (select is_mandatory (evaluate overrides raw)) ≡ false
    → any lacks (select is_mandatory (evaluate overrides raw)) ≡ false
    → any is_conditional_pass (select is_mandatory (evaluate overrides raw)) ≡ false
    → All (IsBacked overrides) (select is_mandatory (evaluate overrides raw))
unfolding evaluate
evaluate-IsBacked overrides [] m f l c = tt
evaluate-IsBacked overrides (r ∷ rs) m f l c =
    go (evaluate-IsBacked overrides rs m.1) (is_mandatory g) refl f l c
  where
    g : GateResult
    g = gate_result r.name r.evidence r.mandatory (override_for overrides r.name)

    gs : List GateResult
    gs = select is_mandatory (evaluate overrides rs)

    go :
        (any fails gs ≡ false
          → any lacks gs ≡ false
          → any is_conditional_pass gs ≡ false
          → All (IsBacked overrides) gs)
        → (b : Bool) → is_mandatory g ≡ b
        → any fails (if b then g ∷ gs else gs) ≡ false
        → any lacks (if b then g ∷ gs else gs) ≡ false
        → any is_conditional_pass (if b then g ∷ gs else gs) ≡ false
        → All (IsBacked overrides) (if b then g ∷ gs else gs)
    go rest false e f l c = rest f l c
    go rest true e f l c = (
      gate_result-IsBacked overrides r.name r.evidence r.mandatory (override_for overrides r.name)
          m.0 refl (unfold PassesAlone in (ground arith, ground arith, ground arith)),
      rest (ground arith) (ground arith) (ground arith),
    )

-- A compatible title has every mandatory gate backed.
abbrev pub IsSound : List GateOverride → CompatibilityAssessment → Type 0
IsSound overrides a =
    a.compatibility ≡ compatible → All (IsBacked overrides) (select is_mandatory a.gates)

module _ (is_printable : Char → Bool) (target : CompatibilityTarget) where
  conclude-IsSound :
      (c : CompatibilityCandidate) (overrides : List GateOverride) (raw : List RawGate)
      (likely : PrimitiveEvidence)
      → AreMade raw
      → IsSound overrides (conclude c target (evaluate overrides raw) likely)
  unfolding conclude
  conclude-IsSound c overrides raw likely m h =
      let (f, l, p) = compatible_tests (select is_mandatory (evaluate overrides raw)) h in
      evaluate-IsBacked overrides raw m f l p

  assess-IsSound :
      (c : CompatibilityCandidate) (requirements : List FeatureRequirement)
      (overrides : List GateOverride) (a : CompatibilityAssessment)
      → IsGrounded c
      → assess is_printable c target requirements overrides ≡ inr a
      → IsSound overrides a
  unfolding assess assess_raw
  assess-IsSound c requirements overrides a grounded h =
      let (raw, gathered, rest) = >>=-inr (raw_gates is_printable c target requirements) _ h in
      let (evaluated, facts) =
        unless_raised (any (λ o. not (is_evaluated raw o)) overrides) unevaluated_gate _ rest in
      let (likely, known, result) =
        >>=-inr (effective_fact is_printable c.likely_good_experience) _ facts in
      subst (IsSound overrides) (inr_inj result) (
        conclude-IsSound c overrides raw likely
          (raw_gates-AreMade is_printable c target requirements raw grounded gathered))

  candidate_or_missing-IsGrounded :
      (requirements : List FeatureRequirement) (candidates : List CompatibilityCandidate)
      (appid : ℕ) (o : Option CompatibilityCandidate) (c : CompatibilityCandidate)
      → All IsGrounded candidates
      → candidate_for candidates appid ≡ o
      → candidate_or_missing is_printable target requirements appid o ≡ inr c
      → IsGrounded c
  candidate_or_missing-IsGrounded requirements candidates appid none c m e h =
      missing_candidate-IsGrounded is_printable appid target c h
  candidate_or_missing-IsGrounded requirements candidates appid (some d) c m e h =
      subst IsGrounded (inr_inj h)
        (All-first IsGrounded (λ (c : CompatibilityCandidate). c.appid == appid) candidates m e)

  assess_one-IsSound :
      (requirements : List FeatureRequirement) (candidates : List CompatibilityCandidate)
      (overrides : List GateOverride)
      → All IsGrounded candidates
      → (appid : ℕ) (a : CompatibilityAssessment)
      → assess_one is_printable target requirements candidates overrides appid ≡ inr a
      → IsSound (overrides_for overrides appid) a
  assess_one-IsSound requirements candidates overrides m appid a h =
      let (c, found, result) =
        assess_one-found is_printable target requirements candidates overrides appid a h in
      assess-IsSound c (sorted_requirements is_printable target requirements)
        (overrides_for overrides appid) a
        (candidate_or_missing-IsGrounded requirements candidates appid
          (candidate_for candidates appid) c m refl found)
        result

-- If the evidence of every candidate comes from its constructor, a title that a batch calls
-- compatible has every mandatory gate passed by an override of the request for that title, or by its
-- own evidence: which says so without a condition or a conflict, is not expired, and has a source, a
-- time of observation and lineage.
pub assess_compatibility-IsSound :
    (is_printable : Char → Bool) (requested : List ℕ) (candidates : List CompatibilityCandidate)
    (target : CompatibilityTarget) (requirements : List FeatureRequirement)
    (overrides : List GateOverride) (b : CompatibilityBatch)
    → All IsGrounded candidates
    → assess_compatibility is_printable requested candidates target requirements overrides ≡ inr b
    → Each (λ n. IsSound (overrides_for overrides n)) (sort_appids requested) b.results
assess_compatibility-IsSound is_printable requested candidates target requirements overrides b m h =
    (Each-assess_compatibility (λ n. IsSound (overrides_for overrides n)) is_printable requested
      candidates target requirements overrides b
      (assess_one-IsSound is_printable target requirements candidates overrides m) h).0
