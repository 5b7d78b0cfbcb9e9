-- ===== src/Compatibility/Interchange.antt =====
-- The assessment of one AppID by src/steam_agent/compatibility.py does not depend on the order of the
-- candidates and the overrides.
use Prim.Native.Char.{Char}
use mathlib.Core.List.{Permᴰ}
use steam_cli.Prelude.{
  ℕ, ◌≤◌, Bool, true, not, ◌&&◌, if◌then◌else◌, ◌==◌, String, str_eq, eq_iff, List, [], ◌∷◌, any,
  count_where, map, ◌⊎◌, inl, inr, ◌≡◌, refl, ap, ◌∙◌, arith,
}
use steam_cli.Checked.{◌>>=◌}
use steam_cli.Ranking.Reorder.{is_unique, is_unique-count, any-Permᴰ}
use steam_cli.Compatibility.Texts.{Fault, unevaluated_gate, unique_by}
use steam_cli.Compatibility.Target.{CompatibilityTarget, FeatureRequirement}
use steam_cli.Compatibility.Candidate.{CompatibilityCandidate, GateOverride}
use steam_cli.Compatibility.Gate.{GateResult, gate_result, effective_fact}
use steam_cli.Compatibility.Raw.{RawGate, raw_gates}
use steam_cli.Compatibility.Assess.{
  CompatibilityAssessment, override_for, is_evaluated, evaluate, conclude, assess_raw, assess,
}
use steam_cli.Compatibility.Batch.{
  same_override, candidate_for, overrides_for, sorted_requirements, candidate_or_missing,
  assess_one,
}
use steam_cli.Compatibility.Lookup.{first-Permᴰ, select-Permᴰ, unique_by-count, count_where-select}

pub same_override-symmetric : (o p : GateOverride) → same_override o p ≡ same_override p o
same_override-symmetric o p = ground (arith, eq_iff o.gate p.gate, eq_iff p.gate o.gate)

-- Overrides of one AppID, without a repetition, name a gate once.
override_count :
    (overrides : List GateOverride) (n : ℕ) (name : String)
    → unique_by same_override overrides ≡ true
    → count_where (λ (o : GateOverride). str_eq o.gate name) (overrides_for overrides n) ≤ 1
override_count overrides n name h = ground (
  arith,
  count_where-select (λ (o : GateOverride). str_eq o.gate name) (λ (o : GateOverride). o.appid == n)
      overrides,
  unique_by-count (λ (o : GateOverride). (o.appid == n) && str_eq o.gate name) same_override alike
      overrides h,
)
  where
    alike :
        (o p : GateOverride)
        → ((o.appid == n) && str_eq o.gate name) ≡ true
        → ((p.appid == n) && str_eq p.gate name) ≡ true
        → same_override o p ≡ true
    alike o p h k = ground (arith, eq_iff o.gate name, eq_iff p.gate name, eq_iff o.gate p.gate)

-- The evaluation asks the overrides only for their gates.
evaluate-Permᴰ :
    {os ps : List GateOverride}
    → Permᴰ os ps
    → ((name : String) → count_where (λ (o : GateOverride). str_eq o.gate name) os ≤ 1)
    → (raw : List RawGate) → evaluate os raw ≡ evaluate ps raw
unfolding evaluate
evaluate-Permᴰ d once [] = refl
evaluate-Permᴰ {os} {ps} d once (r ∷ rs) =
    ap (λ o. gate_result r.name r.evidence r.mandatory o ∷ evaluate os rs)
      (first-Permᴰ (λ (o : GateOverride). str_eq o.gate r.name) d (once r.name))
    ∙ ap (λ gs. gate_result r.name r.evidence r.mandatory (override_for ps r.name) ∷ gs)
        (evaluate-Permᴰ d once rs)

module _ (is_printable : Char → Bool) (target : CompatibilityTarget) where
  assess_raw-Permᴰ :
      (c : CompatibilityCandidate) (raw : List RawGate) {os ps : List GateOverride}
      → Permᴰ os ps
      → ((name : String) → count_where (λ (o : GateOverride). str_eq o.gate name) os ≤ 1)
      → assess_raw is_printable c target os raw ≡ assess_raw is_printable c target ps raw
  unfolding assess_raw
  assess_raw-Permᴰ c raw {os} {ps} d once =
      ap (λ b. if b then inl unevaluated_gate else from (evaluate os raw))
        (any-Permᴰ (λ o. not (is_evaluated raw o)) d)
      ∙ ap (λ gs. if any (λ o. not (is_evaluated raw o)) ps then inl unevaluated_gate else from gs)
          (evaluate-Permᴰ d once raw)
    where
      from : List GateResult → Fault ⊎ CompatibilityAssessment
      from gs = effective_fact is_printable c.likely_good_experience >>= λ likely.
          inr (conclude c target gs likely)

  assess-Permᴰ :
      (c : CompatibilityCandidate) (requirements : List FeatureRequirement)
      {os ps : List GateOverride}
      → Permᴰ os ps
      → ((name : String) → count_where (λ (o : GateOverride). str_eq o.gate name) os ≤ 1)
      → assess is_printable c target requirements os ≡ assess is_printable c target requirements ps
  unfolding assess
  assess-Permᴰ c requirements {os} {ps} d once = go (raw_gates is_printable c target requirements)
    where
      go :
          (r : Fault ⊎ List RawGate)
          → (r >>= λ raw. assess_raw is_printable c target os raw)
            ≡ (r >>= λ raw. assess_raw is_printable c target ps raw)
      go (inl e) = refl
      go (inr raw) = assess_raw-Permᴰ c raw d once

  pub assess_one-Permᴰ :
      (requirements : List FeatureRequirement) {cs ds : List CompatibilityCandidate}
      {os ps : List GateOverride} (n : ℕ)
      → Permᴰ cs ds
      → Permᴰ os ps
      → is_unique (map (λ (c : CompatibilityCandidate). c.appid) cs) ≡ true
      → unique_by same_override os ≡ true
      → assess_one is_printable target requirements cs os n
        ≡ assess_one is_printable target requirements ds ps n
  unfolding assess_one
  assess_one-Permᴰ requirements {cs} {ds} {os} {ps} n c d only once =
      ap (λ o. candidate_or_missing is_printable target requirements n o >>= from os)
        (first-Permᴰ (λ (c : CompatibilityCandidate). c.appid == n) c
          (is_unique-count (λ (c : CompatibilityCandidate). c.appid) n cs only))
      ∙ go (candidate_or_missing is_printable target requirements n (candidate_for ds n))
    where
      from : List GateOverride → CompatibilityCandidate → Fault ⊎ CompatibilityAssessment
      from rs c =
          assess is_printable c target (sorted_requirements is_printable target requirements)
            (overrides_for rs n)

      go : (r : Fault ⊎ CompatibilityCandidate) → (r >>= from os) ≡ (r >>= from ps)
      go (inl e) = refl
      go (inr c) =
          assess-Permᴰ c (sorted_requirements is_printable target requirements)
            (select-Permᴰ (λ (o : GateOverride). o.appid == n) d)
            (λ name. override_count os n name once)
