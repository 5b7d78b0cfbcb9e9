-- ===== src/Compatibility/Results.antt =====
-- What the results of `assess_compatibility` of src/steam_agent/compatibility.py are: one for each
-- requested AppID, whose verdict is the worst verdict of a mandatory gate.
use Prim.Native.Char.{Char}
use mathlib.Core.Path.{subst}
use steam_cli.Prelude.{
  ℕ, Bool, false, not, ◌==◌, Option, none, some, List, [], ◌∷◌, any, first-holds, ◌⊎◌, inr, ◌≡◌,
  refl, ap, arith,
}
use steam_cli.Checked.{checked, checked-inr, >>=-inr, inr_inj, unless_raised}
use steam_cli.Compatibility.Texts.{Fault, unevaluated_gate}
use steam_cli.Compatibility.Evidence.{unknown_evidence}
use steam_cli.Compatibility.Target.{CompatibilityTarget, FeatureRequirement}
use steam_cli.Compatibility.Candidate.{
  CompatibilityCandidate, GateOverride, check_candidate, compatibility_candidate, nothing_known,
  missing_candidate,
}
use steam_cli.Compatibility.Gate.{effective_fact}
use steam_cli.Compatibility.Raw.{RawGate, raw_gates}
use steam_cli.Compatibility.Assess.{
  CompatibilityAssessment, conclude, evaluate, is_evaluated, assess_raw, assess,
}
use steam_cli.Compatibility.Batch.{
  CompatibilityBatch, validate_batch, candidate_for, overrides_for, sorted_requirements,
  candidate_or_missing, assess_one, assess_each, sort_appids, batch_of, assess_compatibility,
}
use steam_cli.Compatibility.Verdict.{IsAssessed, conclude-IsAssessed}

-- The result for one AppID.
abbrev pub IsResultFor : ℕ → CompatibilityAssessment → Type 0
IsResultFor appid a = (a.appid ≡ appid) × IsAssessed a

-- One result for each AppID, in order, and what it is for that AppID.
abbrev pub Each :
    (ℕ → CompatibilityAssessment → Type 0) → List ℕ → List CompatibilityAssessment → Type 0
Each R [] [] = Unit
Each R [] (a ∷ rest) = ⊥
Each R (n ∷ ns) [] = ⊥
Each R (n ∷ ns) (a ∷ bs) = R n a × Each R ns bs

compatibility_candidate-appid :
    (c : CompatibilityCandidate) {d : CompatibilityCandidate}
    → compatibility_candidate c ≡ inr d
    → d.appid ≡ c.appid
unfolding compatibility_candidate
compatibility_candidate-appid c h =
    ap (λ (d : CompatibilityCandidate). d.appid) (checked-inr (check_candidate c) h).1

module _ (is_printable : Char → Bool) (target : CompatibilityTarget) where
  assess_raw-IsAssessed :
      (c : CompatibilityCandidate) (overrides : List GateOverride) (raw : List RawGate)
      {a : CompatibilityAssessment}
      → assess_raw is_printable c target overrides raw ≡ inr a
      → IsResultFor c.appid a
  unfolding assess_raw
  assess_raw-IsAssessed c overrides raw {a} h =
      let (evaluated, rest) =
        unless_raised (any (λ o. not (is_evaluated raw o)) overrides) unevaluated_gate _ h in
      let (likely, known, result) =
        >>=-inr (effective_fact is_printable c.likely_good_experience) _ rest in
      subst (IsResultFor c.appid) (inr_inj result)
        (unfold conclude in refl, conclude-IsAssessed c target (evaluate overrides raw) likely)

  pub assess-IsAssessed :
      (c : CompatibilityCandidate) (requirements : List FeatureRequirement)
      (overrides : List GateOverride) {a : CompatibilityAssessment}
      → assess is_printable c target requirements overrides ≡ inr a
      → IsResultFor c.appid a
  unfolding assess
  assess-IsAssessed c requirements overrides h =
      let (raw, gathered, result) = >>=-inr (raw_gates is_printable c target requirements) _ h in
      assess_raw-IsAssessed c overrides raw result

  missing_candidate-appid :
      (appid : ℕ) {c : CompatibilityCandidate}
      → missing_candidate is_printable appid target ≡ inr c
      → c.appid ≡ appid
  unfolding missing_candidate
  missing_candidate-appid appid h =
      let (missing, known, made) =
        >>=-inr (unknown_evidence is_printable false "candidate_evidence_unavailable") _ h in
      compatibility_candidate-appid (nothing_known appid target missing) made

  candidate_or_missing-appid :
      (requirements : List FeatureRequirement) (candidates : List CompatibilityCandidate)
      (appid : ℕ) (o : Option CompatibilityCandidate) {c : CompatibilityCandidate}
      → candidate_for candidates appid ≡ o
      → candidate_or_missing is_printable target requirements appid o ≡ inr c
      → c.appid ≡ appid
  candidate_or_missing-appid requirements candidates appid none e h =
      missing_candidate-appid appid h
  candidate_or_missing-appid requirements candidates appid (some d) e h = ground (
    arith,
    ap (λ (c : CompatibilityCandidate). c.appid) (inr_inj h),
    first-holds (λ (c : CompatibilityCandidate). c.appid == appid) candidates {a = d} e,
  )

  -- The candidate that an AppID is assessed by: the one of the request, or one of which nothing is
  -- known.
  pub assess_one-found :
      (requirements : List FeatureRequirement) (candidates : List CompatibilityCandidate)
      (overrides : List GateOverride) (appid : ℕ) (a : CompatibilityAssessment)
      → assess_one is_printable target requirements candidates overrides appid ≡ inr a
      → (c : CompatibilityCandidate) × (candidate_or_missing is_printable target requirements appid
            (candidate_for candidates appid)
          ≡ inr c)
        × (assess is_printable c target
              (sorted_requirements is_printable target requirements)
              (overrides_for overrides appid)
            ≡ inr a)
  unfolding assess_one
  assess_one-found requirements candidates overrides appid a h =
      >>=-inr
        (candidate_or_missing is_printable target requirements appid
          (candidate_for candidates appid))
        _ h

  assess_one-IsAssessed :
      (requirements : List FeatureRequirement) (candidates : List CompatibilityCandidate)
      (overrides : List GateOverride) (appid : ℕ) (a : CompatibilityAssessment)
      → assess_one is_printable target requirements candidates overrides appid ≡ inr a
      → IsResultFor appid a
  assess_one-IsAssessed requirements candidates overrides appid a h =
      let (c, found, result) = assess_one-found requirements candidates overrides appid a h in
      subst (λ n. IsResultFor n a)
        (candidate_or_missing-appid requirements candidates appid (candidate_for candidates appid)
          refl found)
        (assess-IsAssessed c (sorted_requirements is_printable target requirements)
          (overrides_for overrides appid) result)

pub Each-assess_each :
    (R : ℕ → CompatibilityAssessment → Type 0) (one : ℕ → Fault ⊎ CompatibilityAssessment)
    → ((n : ℕ) (a : CompatibilityAssessment) → one n ≡ inr a → R n a)
    → (ns : List ℕ) (rs : List CompatibilityAssessment) → assess_each one ns ≡ inr rs
    → Each R ns rs
unfolding assess_each
Each-assess_each R one each [] rs h = subst (Each R []) (inr_inj h) tt
Each-assess_each R one each (n ∷ ns) rs h =
    let (a, first_result, more) = >>=-inr (one n) _ h in
    let (results, rest, joined) = >>=-inr (assess_each one ns) _ more in
    subst (Each R (n ∷ ns)) (inr_inj joined)
      (each n a first_result, Each-assess_each R one each ns results rest)

-- What holds of each result of a single AppID holds of the results of a batch.
pub Each-assess_compatibility :
    (R : ℕ → CompatibilityAssessment → Type 0) (is_printable : Char → Bool) (requested : List ℕ)
    (candidates : List CompatibilityCandidate) (target : CompatibilityTarget)
    (requirements : List FeatureRequirement) (overrides : List GateOverride)
    (b : CompatibilityBatch)
    → ((n : ℕ) (a : CompatibilityAssessment)
        → assess_one is_printable target requirements candidates overrides n ≡ inr a
        → R n a)
    → assess_compatibility is_printable requested candidates target requirements overrides ≡ inr b
    → Each R (sort_appids requested) b.results
      × (b ≡ batch_of target (sort_appids requested) b.results)
unfolding assess_compatibility
Each-assess_compatibility R is_printable requested candidates target requirements overrides b holds
      h =
    let one = assess_one is_printable target requirements candidates overrides in
    let (u, valid, assessed) =
      >>=-inr (checked (validate_batch requested candidates target requirements overrides) tt) _
        h in
    let (results, each, joined) = >>=-inr (assess_each one (sort_appids requested)) _ assessed in
    subst
      (λ (c : CompatibilityBatch).
        Each R (sort_appids requested) c.results
        × (c ≡ batch_of target (sort_appids requested) c.results))
      (inr_inj joined) (Each-assess_each R one holds (sort_appids requested) results each, refl)

-- A batch that is returned has the requested AppIDs in order with one result for each, and is
-- complete exactly when each result is. The verdict of a result is the worst verdict of a mandatory
-- gate. A title is never said to be playable now, and is said not to be exactly when it is
-- incompatible or known not to be installed. A complete result rests on gates that are all known and
-- without a conflict, and fresh where they are mandatory.
pub assess_compatibility-IsAssessed :
    (is_printable : Char → Bool) (requested : List ℕ) (candidates : List CompatibilityCandidate)
    (target : CompatibilityTarget) (requirements : List FeatureRequirement)
    (overrides : List GateOverride) (b : CompatibilityBatch)
    → assess_compatibility is_printable requested candidates target requirements overrides ≡ inr b
    → Each IsResultFor (sort_appids requested) b.results
      × (b ≡ batch_of target (sort_appids requested) b.results)
assess_compatibility-IsAssessed is_printable requested candidates target requirements overrides b
      h =
    Each-assess_compatibility IsResultFor is_printable requested candidates target requirements
      overrides b (assess_one-IsAssessed is_printable target requirements candidates overrides) h
