-- ===== src/Compatibility/Verdict.antt =====
-- The verdict of an assessment of src/steam_agent/compatibility.py as the worst verdict of a gate.
use steam_cli.Prelude.{
  Bool, true, false, not, ◌&&◌, ◌||◌, if◌then◌else◌, Option, none, some, is_some, String, List, [],
  ◌∷◌, any, select, ◌⊎◌, inl, inr, ◌≡◌, ◌≢◌, refl, ap, ◌∙◌, arith,
}
use steam_cli.Compatibility.Evidence.{
  GateState, pass, fail, unknown, is_pass, is_fail, is_unknown, PrimitiveEvidence,
}
use steam_cli.Compatibility.Target.{CompatibilityTarget}
use steam_cli.Compatibility.Candidate.{CompatibilityCandidate}
use steam_cli.Compatibility.Gate.{GateResult}
use steam_cli.Compatibility.Assess.{
  CompatibilityState, compatible, incompatible, conditional, undetermined, fails, lacks,
  is_conditional_pass, compatibility_of, is_mandatory, in_conflict, is_dated, is_not_installed,
  playable_now, is_partial, CompatibilityAssessment, conclude,
}

-- What one gate says.
pub verdict_of : GateState → Option String → CompatibilityState
verdict_of fail condition = incompatible
verdict_of unknown condition = undetermined
verdict_of pass (some condition) = conditional
verdict_of pass none = compatible

-- The worse of two verdicts: a failure, then what is unknown, then a condition.
pub worse : CompatibilityState → CompatibilityState → CompatibilityState
worse incompatible s = incompatible
worse s incompatible = incompatible
worse undetermined s = undetermined
worse s undetermined = undetermined
worse conditional s = conditional
worse s conditional = conditional
worse compatible compatible = compatible

pub worst : List GateResult → CompatibilityState
worst [] = compatible
worst (g ∷ gs) = worse (verdict_of g.effective g.effective_condition) (worst gs)

-- The verdict from the three tests.
abbrev of_tests : Bool → Bool → Bool → CompatibilityState
of_tests failed lacking conditioned =
    if failed
    then incompatible
    else if lacking
    then undetermined
    else if conditioned
    then conditional
    else compatible

worse-of_tests :
    (s : GateState) (c : Option String) (f l p : Bool)
    → of_tests (is_fail s || f) (is_unknown s || l) ((is_pass s && is_some c) || p)
      ≡ worse (verdict_of s c) (of_tests f l p)
unfolding verdict_of worse
worse-of_tests fail c f l p = refl
worse-of_tests unknown c true l p = refl
worse-of_tests unknown c false true p = refl
worse-of_tests unknown c false false true = refl
worse-of_tests unknown c false false false = refl
worse-of_tests pass (some c) true l p = refl
worse-of_tests pass (some c) false true p = refl
worse-of_tests pass (some c) false false true = refl
worse-of_tests pass (some c) false false false = refl
worse-of_tests pass none true l p = refl
worse-of_tests pass none false true p = refl
worse-of_tests pass none false false true = refl
worse-of_tests pass none false false false = refl

pub compatibility_of-worst : (gs : List GateResult) → compatibility_of gs ≡ worst gs
unfolding compatibility_of worst
compatibility_of-worst [] = refl
compatibility_of-worst (g ∷ gs) =
    worse-of_tests g.effective g.effective_condition (any fails gs) (any lacks gs)
      (any is_conditional_pass gs)
    ∙ ap (worse (verdict_of g.effective g.effective_condition)) (compatibility_of-worst gs)

-- What an assessment promises of its gates.
pub record IsAssessed (a : CompatibilityAssessment) : Type 0 where
  pub verdict : a.compatibility ≡ worst (select is_mandatory a.gates)
  pub never_ready : a.playable ≢ pass
  pub ruled_out :
      a.playable ≡ fail → (a.compatibility ≡ incompatible) ⊎ (is_not_installed a.gates ≡ true)
  pub not_installed : is_not_installed a.gates ≡ true → a.playable ≡ fail
  pub incompatible_now : a.compatibility ≡ incompatible → a.playable ≡ fail
  pub complete :
      a.is_complete ≡ true
      → (any lacks a.gates ≡ false)
        × (any in_conflict a.gates ≡ false)
        × (any is_dated (select is_mandatory a.gates) ≡ false)
        × (a.playable ≡ fail)

playable-ne-pass : (gates : List GateResult) (s : CompatibilityState) → playable_now gates s ≢ pass
unfolding playable_now
playable-ne-pass gates s h = ground arith

ruled_out_by :
    (gates : List GateResult) (s : CompatibilityState)
    → playable_now gates s ≡ fail
    → (s ≡ incompatible) ⊎ (is_not_installed gates ≡ true)
unfolding playable_now
ruled_out_by gates incompatible h = inl refl
ruled_out_by gates s h = inr (ground arith)

not_installed_fails :
    (gates : List GateResult) (s : CompatibilityState)
    → is_not_installed gates ≡ true
    → playable_now gates s ≡ fail
unfolding playable_now
not_installed_fails gates s h = ground arith

incompatible_fails :
    (gates : List GateResult) (s : CompatibilityState)
    → s ≡ incompatible
    → playable_now gates s ≡ fail
unfolding playable_now
incompatible_fails gates s h = rw h (ground arith)

complete_needs :
    (gates : List GateResult) (s : CompatibilityState) (likely : PrimitiveEvidence)
    → not (is_partial gates s likely) ≡ true
    → (any lacks gates ≡ false)
      × (any in_conflict gates ≡ false)
      × (any is_dated (select is_mandatory gates) ≡ false)
      × (playable_now gates s ≡ fail)
unfolding is_partial playable_now
complete_needs gates s likely h = (ground arith, ground arith, ground arith, ground arith)

pub conclude-IsAssessed :
    (c : CompatibilityCandidate) (target : CompatibilityTarget) (gates : List GateResult)
    (likely : PrimitiveEvidence)
    → IsAssessed (conclude c target gates likely)
unfolding conclude
conclude-IsAssessed c target gates likely =
    let state = compatibility_of (select is_mandatory gates) in
    record {
      verdict = compatibility_of-worst (select is_mandatory gates);
      never_ready = playable-ne-pass gates state;
      ruled_out = ruled_out_by gates state;
      not_installed = not_installed_fails gates state;
      incompatible_now = incompatible_fails gates state;
      complete = complete_needs gates state c.likely_good_experience;
    }
