-- ===== src/Compatibility/Raises.antt =====
-- The gates and the candidates of src/steam_agent/compatibility.py that are made without a fault.
use Prim.Native.Char.{Char}
use steam_cli.Prelude.{
  ℕ, Bool, false, Option, none, some, List, [], ◌∷◌, ◌⊎◌, inl, inr, ◌≡◌, refl, ap, arith,
  Bool-cases, All,
}
use steam_cli.Checked.{◌>>=◌, checked, len, any_char, inl_inj}
use steam_cli.Compatibility.Texts.{Fault, unique_by}
use steam_cli.Compatibility.Evidence.{PrimitiveEvidence, unknown_evidence}
use steam_cli.Compatibility.Target.{
  CompatibilityTarget, same_target, RuntimeRisk, FeatureEvidence, FeatureRequirement, TargetReview,
}
use steam_cli.Compatibility.Candidate.{
  CompatibilityCandidate, check_candidate, compatibility_candidate, nothing_known,
  missing_candidate,
}
use steam_cli.Compatibility.Gate.{exact_review_for_target}
use steam_cli.Compatibility.Raw.{evidence_for, risk_gates, requirement_gates, raw_gates}
use steam_cli.Compatibility.Batch.{is_bad_appid, candidate_or_missing}
use steam_cli.Compatibility.Printable.{PrintsCodes}
use steam_cli.Compatibility.Accepted.{RaisesOnly, IsAccepted}
use steam_cli.Compatibility.Derived.{
  IsAcceptedRisk, unknown_evidence-RaisesOnly, evidence_for-RaisesOnly,
}

-- What an assessment makes new evidence from was accepted by its constructor.
pub record IsConstructed (is_printable : Char → Bool) (c : CompatibilityCandidate) : Type 0 where
  pub likely : IsAccepted is_printable c.likely_good_experience
  pub risks : All (IsAcceptedRisk is_printable) c.runtime_risks

pub RaisesOnly-bind :
    {A B : Type 0} (Q : Fault → Type 0) (m : Fault ⊎ A) (k : A → Fault ⊎ B)
    → RaisesOnly Q m
    → ((a : A) → m ≡ inr a → RaisesOnly Q (k a))
    → RaisesOnly Q (m >>= k)
RaisesOnly-bind Q (inl e) k now later f h = now f (ap (λ e. inl e) (inl_inj h))
RaisesOnly-bind Q (inr a) k now later f h = later a refl f h

pub RaisesOnly-inr : {A : Type 0} (Q : Fault → Type 0) (a : A) → RaisesOnly Q (inr a)
RaisesOnly-inr Q a f h = cc

nothing_known-check :
    (appid : ℕ) (target : CompatibilityTarget) (e : PrimitiveEvidence)
    → is_bad_appid appid ≡ false
    → check_candidate (nothing_known appid target e) ≡ none
unfolding check_candidate unique_by
nothing_known-check appid target e ok = ground arith

checked-RaisesOnly :
    {A : Type 0} (Q : Fault → Type 0) (c : Option Fault) (a : A)
    → c ≡ none
    → RaisesOnly Q (checked c a)
checked-RaisesOnly Q none a h f k = cc
checked-RaisesOnly Q (some e) a h f k = cc

compatibility_candidate-RaisesOnly :
    (Q : Fault → Type 0) (c : CompatibilityCandidate)
    → check_candidate c ≡ none
    → RaisesOnly Q (compatibility_candidate c)
unfolding compatibility_candidate
compatibility_candidate-RaisesOnly Q c h = checked-RaisesOnly Q (check_candidate c) _ h

module _ (is_printable : Char → Bool) (prints : PrintsCodes is_printable) (Q : Fault → Type 0) where
  risk_gates-RaisesOnly :
      (risks : List RuntimeRisk)
      → All (IsAcceptedRisk is_printable) risks
      → RaisesOnly Q (risk_gates is_printable risks)
  unfolding risk_gates
  risk_gates-RaisesOnly [] a = RaisesOnly-inr Q []
  risk_gates-RaisesOnly (r ∷ rs) a =
      RaisesOnly-bind Q (evidence_for is_printable r.presence r) _
        (evidence_for-RaisesOnly is_printable prints Q r.presence r refl a.0)
        (λ e h.
          RaisesOnly-bind Q (risk_gates is_printable rs) _ (risk_gates-RaisesOnly rs a.1)
            (λ rest k. RaisesOnly-inr Q _))

  requirement_gates-RaisesOnly :
      (features : List FeatureEvidence) (rs : List FeatureRequirement)
      → RaisesOnly Q (requirement_gates is_printable features rs)
  unfolding requirement_gates
  requirement_gates-RaisesOnly features [] = RaisesOnly-inr Q []
  requirement_gates-RaisesOnly features (r ∷ rs) =
      RaisesOnly-bind Q (unknown_evidence is_printable false "required_feature_not_observed") _
        (unknown_evidence-RaisesOnly is_printable prints Q "required_feature_not_observed"
          (unfold any_char in refl) (unfold len in omega arith) (unfold len in omega arith))
        (λ e h.
          RaisesOnly-bind Q (requirement_gates is_printable features rs) _
            (requirement_gates-RaisesOnly features rs) (λ rest k. RaisesOnly-inr Q _))

  exact_review-RaisesOnly :
      (o : Option TargetReview) (target : CompatibilityTarget)
      → RaisesOnly Q (exact_review_for_target is_printable o target)
  unfolding exact_review_for_target
  exact_review-RaisesOnly none target =
      unknown_evidence-RaisesOnly is_printable prints Q "exact_target_review_not_observed"
        (unfold any_char in refl) (unfold len in omega arith) (unfold len in omega arith)
  exact_review-RaisesOnly (some r) target = elim (Bool-cases (same_target r.target target)) [
    | inl same ↦ rw same (RaisesOnly-inr Q r.evidence)
    | inr other ↦ rw other (
        unknown_evidence-RaisesOnly is_printable prints Q "target_review_is_for_a_different_target"
          (unfold any_char in refl) (unfold len in omega arith) (unfold len in omega arith))
  ]

  pub raw_gates-RaisesOnly :
      (c : CompatibilityCandidate) (target : CompatibilityTarget) (rs : List FeatureRequirement)
      → IsConstructed is_printable c
      → RaisesOnly Q (raw_gates is_printable c target rs)
  unfolding raw_gates
  raw_gates-RaisesOnly c target rs a =
      RaisesOnly-bind Q (exact_review_for_target is_printable c.exact_target_review target) _
        (exact_review-RaisesOnly c.exact_target_review target)
        (λ review h.
          RaisesOnly-bind Q (risk_gates is_printable c.runtime_risks) _
            (risk_gates-RaisesOnly c.runtime_risks a.risks)
            (λ risks k.
              RaisesOnly-bind Q (requirement_gates is_printable c.features rs) _
                (requirement_gates-RaisesOnly c.features rs) (λ required l. RaisesOnly-inr Q _)))

  missing_candidate-RaisesOnly :
      (appid : ℕ) (target : CompatibilityTarget)
      → is_bad_appid appid ≡ false
      → RaisesOnly Q (missing_candidate is_printable appid target)
  unfolding missing_candidate
  missing_candidate-RaisesOnly appid target ok =
      RaisesOnly-bind Q (unknown_evidence is_printable false "candidate_evidence_unavailable") _
        (unknown_evidence-RaisesOnly is_printable prints Q "candidate_evidence_unavailable"
          (unfold any_char in refl) (unfold len in omega arith) (unfold len in omega arith))
        (λ e h.
          compatibility_candidate-RaisesOnly Q (nothing_known appid target e)
            (nothing_known-check appid target e ok))

  pub candidate_or_missing-RaisesOnly :
      (target : CompatibilityTarget) (requirements : List FeatureRequirement) (appid : ℕ)
      (o : Option CompatibilityCandidate)
      → is_bad_appid appid ≡ false
      → RaisesOnly Q (candidate_or_missing is_printable target requirements appid o)
  candidate_or_missing-RaisesOnly target requirements appid none ok =
      missing_candidate-RaisesOnly appid target ok
  candidate_or_missing-RaisesOnly target requirements appid (some c) ok = RaisesOnly-inr Q c
