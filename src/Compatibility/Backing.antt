-- ===== src/Compatibility/Backing.antt =====
-- The evidence behind the gates of a candidate of src/steam_agent/compatibility.py comes from its
-- constructor.
use Prim.Native.Char.{Char}
use mathlib.Core.Path.{subst}
use steam_cli.Prelude.{
  ℕ, Bool, false, Option, none, some, List, [], ◌∷◌, ◌++◌, inl, inr, ◌≡◌, refl, sym, arith,
  Bool-cases, All, All-append, All-first,
}
use steam_cli.Checked.{checked-inr, >>=-inr, inr_inj}
use steam_cli.Ranking.Sort.{sort_by}
use steam_cli.Compatibility.Texts.{Fault}
use steam_cli.Compatibility.Evidence.{pass, PrimitiveEvidence, unknown_evidence}
use steam_cli.Compatibility.Target.{
  CompatibilityTarget, is_deck, same_target, RuntimeRisk, Presence, present, absent, unobserved,
  FeatureEvidence, FeatureRequirement, TargetReview,
}
use steam_cli.Compatibility.Candidate.{
  CompatibilityCandidate, nothing_known, missing_candidate, check_candidate,
  compatibility_candidate,
}
use steam_cli.Compatibility.Gate.{exact_review_for_target}
use steam_cli.Compatibility.Raw.{
  RawGate, as_gate, of_present, evidence_for, risk_gates, support_or, find_feature,
  requirement_gates, fixed_gates, raw_gates,
}
use steam_cli.Compatibility.Attributed.{IsMade, primitive_evidence-IsMade, unknown_evidence-IsMade}

-- The evidence of a candidate comes from the constructor.
pub record IsGrounded (c : CompatibilityCandidate) : Type 0 where
  pub native_build : IsMade c.declared_native_build
  pub support : IsMade c.effective_execution_support
  pub architecture : IsMade c.architecture
  pub minimum : IsMade c.meets_minimum
  pub installed : IsMade c.installed
  pub owned : IsMade c.owned
  pub review : (r : TargetReview) → c.exact_target_review ≡ some r → IsMade r.evidence
  pub risks : All (λ (r : RuntimeRisk). IsMade r.evidence) c.runtime_risks
  pub features : All (λ (f : FeatureEvidence). IsMade f.support) c.features

abbrev pub AreMade : List RawGate → Type 0
AreMade = All (λ (r : RawGate). IsMade r.evidence)

module _ (is_printable : Char → Bool) where
  evidence_for-IsMade :
      (p : Presence) (risk : RuntimeRisk) (e : PrimitiveEvidence)
      → IsMade risk.evidence
      → evidence_for is_printable p risk ≡ inr e
      → IsMade e
  unfolding evidence_for
  evidence_for-IsMade present risk e m h =
      primitive_evidence-IsMade is_printable (of_present risk) e h
  evidence_for-IsMade absent risk e m h =
      primitive_evidence-IsMade is_printable (as_gate risk.evidence pass none) e h
  evidence_for-IsMade unobserved risk e m h = subst IsMade (inr_inj h) m

  risk_gates-AreMade :
      (risks : List RuntimeRisk) (gates : List RawGate)
      → All (λ (r : RuntimeRisk). IsMade r.evidence) risks
      → risk_gates is_printable risks ≡ inr gates
      → AreMade gates
  unfolding risk_gates
  risk_gates-AreMade [] gates m h = subst AreMade (inr_inj h) tt
  risk_gates-AreMade (risk ∷ risks) gates m h =
      let (e, made, more) = >>=-inr (evidence_for is_printable risk.presence risk) _ h in
      let (rest, others, joined) = >>=-inr (risk_gates is_printable risks) _ more in
      subst AreMade (inr_inj joined) (
        evidence_for-IsMade risk.presence risk e m.0 made,
        risk_gates-AreMade risks rest m.1 others,
      )

  requirement_gates-AreMade :
      (features : List FeatureEvidence) (rs : List FeatureRequirement) (gates : List RawGate)
      → All (λ (f : FeatureEvidence). IsMade f.support) features
      → requirement_gates is_printable features rs ≡ inr gates
      → AreMade gates
  unfolding requirement_gates
  requirement_gates-AreMade features [] gates m h = subst AreMade (inr_inj h) tt
  requirement_gates-AreMade features (r ∷ rs) gates m h =
      let (missing, made, more) =
        >>=-inr (unknown_evidence is_printable false "required_feature_not_observed") _ h in
      let (rest, others, joined) = >>=-inr (requirement_gates is_printable features rs) _ more in
      subst AreMade (inr_inj joined) (
        support_or-IsMade missing
            (unknown_evidence-IsMade is_printable false "required_feature_not_observed" missing
              made)
            (find_feature is_printable features r) refl,
        requirement_gates-AreMade features rs rest m others,
      )
    where
      support_or-IsMade :
          (missing : PrimitiveEvidence)
          → IsMade missing
          → (o : Option FeatureEvidence) → find_feature is_printable features r ≡ o
          → IsMade (support_or is_printable missing o)
      support_or-IsMade missing k none e = k
      support_or-IsMade missing k (some f) e =
          All-first (λ (f : FeatureEvidence). IsMade f.support) _ features m e

  exact_review-IsMade :
      (o : Option TargetReview) (target : CompatibilityTarget) (e : PrimitiveEvidence)
      → ((r : TargetReview) → o ≡ some r → IsMade r.evidence)
      → exact_review_for_target is_printable o target ≡ inr e
      → IsMade e
  unfolding exact_review_for_target
  exact_review-IsMade none target e m h =
      unknown_evidence-IsMade is_printable false "exact_target_review_not_observed" e h
  exact_review-IsMade (some r) target e m h = elim (Bool-cases (same_target r.target target)) [
    | inl same ↦ subst IsMade (inr_inj {E = Fault} (ground arith)) (m r refl)
    | inr other ↦
        unknown_evidence-IsMade is_printable false "target_review_is_for_a_different_target" e
          (ground arith)
  ]

  pub raw_gates-AreMade :
      (c : CompatibilityCandidate) (target : CompatibilityTarget) (rs : List FeatureRequirement)
      (gates : List RawGate)
      → IsGrounded c
      → raw_gates is_printable c target rs ≡ inr gates
      → AreMade gates
  unfolding raw_gates
  raw_gates-AreMade c target rs gates m h =
      let (review, reviewed, more) =
        >>=-inr (exact_review_for_target is_printable c.exact_target_review target) _ h in
      let (risks, risky, yet_more) = >>=-inr (risk_gates is_printable c.runtime_risks) _ more in
      let (required, needed, joined) =
        >>=-inr (requirement_gates is_printable c.features rs) _ yet_more in
      subst AreMade (inr_inj joined) (
        All-append made (fixed_gates is_printable c (is_deck target.kind) review)
          (risks ++ required)
          (
            m.native_build,
            (
              m.support,
              (
                m.architecture,
                (
                  m.minimum,
                  (
                    exact_review-IsMade c.exact_target_review target review m.review reviewed,
                    (m.installed, (m.owned, tt)),
                  ),
                ),
              ),
            ),
          )
          (All-append made risks required (risk_gates-AreMade c.runtime_risks risks m.risks risky)
            (requirement_gates-AreMade c.features rs required m.features needed)))
    where
      made : RawGate → Type 0
      made r = IsMade r.evidence

  pub missing_candidate-IsGrounded :
      (appid : ℕ) (target : CompatibilityTarget) (c : CompatibilityCandidate)
      → missing_candidate is_printable appid target ≡ inr c
      → IsGrounded c
  unfolding missing_candidate compatibility_candidate sort_by
  missing_candidate-IsGrounded appid target c h =
      let (missing, known, made) =
        >>=-inr (unknown_evidence is_printable false "candidate_evidence_unavailable") _ h in
      let k =
        unknown_evidence-IsMade is_printable false "candidate_evidence_unavailable" missing known in
      subst IsGrounded
        (sym (checked-inr (check_candidate (nothing_known appid target missing)) made).1)
        (record {
          native_build = k;
          support = k;
          architecture = k;
          minimum = k;
          installed = k;
          owned = k;
          review = λ r e. cc;
          risks = tt;
          features = tt;
        })
