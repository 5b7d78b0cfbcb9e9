-- ===== src/Compatibility/Total.antt =====
-- `assess_compatibility` of src/steam_agent/compatibility.py raises for a request that its validation
-- refuses and for an override of a gate that is not there, and for nothing else.
use Prim.Native.Char.{Char}
use mathlib.Core.Path.{subst}
use steam_cli.Prelude.{
  ℕ, Bool, true, false, not, ◌==◌, Option, none, some, List, [], ◌∷◌, any, ◌⊎◌, inl, inr, ◌≡◌, ◌≢◌,
  refl, ap, ◌∙◌, sym, arith, Bool-cases, All, All-first,
}
use steam_cli.Checked.{◌>>=◌, checked, inl_inj, inr_inj, >>=-inr, checked-inr}
use steam_cli.Ranking.Order.{nat}
use steam_cli.Ranking.Sort.{sort_by, sort_by-perm}
use steam_cli.Ranking.Reorder.{any-Permᴰ}
use steam_cli.Compatibility.Texts.{Fault, unevaluated_gate}
use steam_cli.Compatibility.Evidence.{unknown_evidence}
use steam_cli.Compatibility.Target.{CompatibilityTarget, FeatureRequirement}
use steam_cli.Compatibility.Candidate.{
  CompatibilityCandidate, GateOverride, check_candidate, compatibility_candidate, nothing_known,
  missing_candidate,
}
use steam_cli.Compatibility.Gate.{effective_fact}
use steam_cli.Compatibility.Raw.{RawGate, raw_gates}
use steam_cli.Compatibility.Assess.{CompatibilityAssessment, is_evaluated, assess_raw, assess}
use steam_cli.Compatibility.Batch.{
  CompatibilityBatch, is_bad_appid, validate_compatibility_request, validate_batch, candidate_for,
  overrides_for, sorted_requirements, candidate_or_missing, assess_one, assess_each, sort_appids,
  batch_of, assess_compatibility,
}
use steam_cli.Compatibility.Printable.{PrintsCodes}
use steam_cli.Compatibility.Accepted.{RaisesOnly}
use steam_cli.Compatibility.Derived.{unknown_evidence-IsAccepted, effective_fact-RaisesOnly}
use steam_cli.Compatibility.Raises.{
  IsConstructed, RaisesOnly-bind, RaisesOnly-inr, raw_gates-RaisesOnly,
  candidate_or_missing-RaisesOnly,
}

-- The one fault of an assessment.
abbrev pub IsUnevaluated : List GateOverride → Fault → Type 0
IsUnevaluated overrides f = (f ≡ unevaluated_gate) × (overrides ≢ [])

-- An override can be wrong only where there is one.
some_override :
    (p : GateOverride → Bool) (overrides : List GateOverride) (n : ℕ)
    → any p (overrides_for overrides n) ≡ true
    → overrides ≢ []
some_override p [] n h k = cc
some_override p (o ∷ os) n h k = cc

missing_candidate-IsConstructed :
    (is_printable : Char → Bool)
    → PrintsCodes is_printable
    → (appid : ℕ) (target : CompatibilityTarget) (c : CompatibilityCandidate)
    → missing_candidate is_printable appid target ≡ inr c
    → IsConstructed is_printable c
unfolding missing_candidate compatibility_candidate sort_by
missing_candidate-IsConstructed is_printable prints appid target c h =
    let (e, known, made) =
      >>=-inr (unknown_evidence is_printable false "candidate_evidence_unavailable") _ h in
    subst (IsConstructed is_printable)
      (sym (checked-inr (check_candidate (nothing_known appid target e)) made).1)
      (record {
        likely =
            unknown_evidence-IsAccepted is_printable prints "candidate_evidence_unavailable" e
              known;
        risks = tt;
      })

module _ (is_printable : Char → Bool) (prints : PrintsCodes is_printable)
    (target : CompatibilityTarget) (requirements : List FeatureRequirement)
    (overrides : List GateOverride) where
  assess_raw-IsUnevaluated :
      (c : CompatibilityCandidate) (n : ℕ) (raw : List RawGate)
      → IsConstructed is_printable c
      → RaisesOnly
          (IsUnevaluated overrides)
          (assess_raw is_printable c target (overrides_for overrides n) raw)
  unfolding assess_raw
  assess_raw-IsUnevaluated c n raw a =
      elim (Bool-cases (any (λ o. not (is_evaluated raw o)) (overrides_for overrides n))) [
        | inl wrong ↦ rw wrong (λ f h.
            (sym (inl_inj h), some_override (λ o. not (is_evaluated raw o)) overrides n wrong))
        | inr right ↦ rw right (
            RaisesOnly-bind (IsUnevaluated overrides)
              (effective_fact is_printable c.likely_good_experience) _
              (effective_fact-RaisesOnly is_printable prints (IsUnevaluated overrides)
                c.likely_good_experience a.likely)
              (λ likely h. RaisesOnly-inr (IsUnevaluated overrides) _))
      ]

  assess-IsUnevaluated :
      (c : CompatibilityCandidate) (n : ℕ) (rs : List FeatureRequirement)
      → IsConstructed is_printable c
      → RaisesOnly
          (IsUnevaluated overrides)
          (assess is_printable c target rs (overrides_for overrides n))
  unfolding assess
  assess-IsUnevaluated c n rs a =
      RaisesOnly-bind (IsUnevaluated overrides) (raw_gates is_printable c target rs) _
        (raw_gates-RaisesOnly is_printable prints (IsUnevaluated overrides) c target rs a)
        (λ raw h. assess_raw-IsUnevaluated c n raw a)

  found-IsConstructed :
      (candidates : List CompatibilityCandidate) (n : ℕ) (o : Option CompatibilityCandidate)
      (c : CompatibilityCandidate)
      → All (IsConstructed is_printable) candidates
      → candidate_for candidates n ≡ o
      → candidate_or_missing is_printable target requirements n o ≡ inr c
      → IsConstructed is_printable c
  found-IsConstructed candidates n none c a e h =
      missing_candidate-IsConstructed is_printable prints n target c h
  found-IsConstructed candidates n (some d) c a e h =
      subst (IsConstructed is_printable) (inr_inj h) (
        All-first (IsConstructed is_printable) (λ (c : CompatibilityCandidate). c.appid == n)
          candidates a e)

  assess_one-IsUnevaluated :
      (candidates : List CompatibilityCandidate) (n : ℕ)
      → All (IsConstructed is_printable) candidates
      → is_bad_appid n ≡ false
      → RaisesOnly
          (IsUnevaluated overrides)
          (assess_one is_printable target requirements candidates overrides n)
  unfolding assess_one
  assess_one-IsUnevaluated candidates n a ok =
      RaisesOnly-bind (IsUnevaluated overrides)
        (candidate_or_missing is_printable target requirements n (candidate_for candidates n)) _
        (candidate_or_missing-RaisesOnly is_printable prints (IsUnevaluated overrides) target
          requirements n (candidate_for candidates n) ok)
        (λ c h.
          assess-IsUnevaluated c n (sorted_requirements is_printable target requirements)
            (found-IsConstructed candidates n (candidate_for candidates n) c a refl h))

assess_each-RaisesOnly :
    (Q : Fault → Type 0) (one : ℕ → Fault ⊎ CompatibilityAssessment)
    → ((n : ℕ) → is_bad_appid n ≡ false → RaisesOnly Q (one n))
    → (ns : List ℕ) → any is_bad_appid ns ≡ false
    → RaisesOnly Q (assess_each one ns)
unfolding assess_each
assess_each-RaisesOnly Q one each [] h = RaisesOnly-inr Q []
assess_each-RaisesOnly Q one each (n ∷ ns) h =
    RaisesOnly-bind Q (one n) _ (each n (ground arith)) (λ a k.
      RaisesOnly-bind Q (assess_each one ns) _ (assess_each-RaisesOnly Q one each ns (ground arith))
        (λ rs l. RaisesOnly-inr Q _))

valid_appids :
    (requested : List ℕ) (candidates : List CompatibilityCandidate) (target : CompatibilityTarget)
    (requirements : List FeatureRequirement) (overrides : List GateOverride)
    → validate_batch requested candidates target requirements overrides ≡ none
    → any is_bad_appid requested ≡ false
unfolding validate_batch validate_compatibility_request
valid_appids requested candidates target requirements overrides h = ground arith

-- If the characters of codes are printable, and the constructors accepted the runtime risks and the
-- estimated experience of every candidate, then a call raises only what the validation of the request
-- raises, or that an override names a gate which was not evaluated, with at least one override given.
-- A valid request without overrides gets its batch.
pub assess_compatibility_faults :
    (is_printable : Char → Bool) (requested : List ℕ) (candidates : List CompatibilityCandidate)
    (target : CompatibilityTarget) (requirements : List FeatureRequirement)
    (overrides : List GateOverride)
    → PrintsCodes is_printable
    → All (IsConstructed is_printable) candidates
    → (f : Fault)
    → assess_compatibility is_printable requested candidates target requirements overrides ≡ inl f
    → (validate_batch requested candidates target requirements overrides ≡ some f)
      ⊎ IsUnevaluated overrides f
unfolding assess_compatibility
assess_compatibility_faults is_printable requested candidates target requirements overrides prints a
      f h =
    go (validate_batch requested candidates target requirements overrides) refl h
  where
    from : Fault ⊎ CompatibilityBatch
    from =
        assess_each (assess_one is_printable target requirements candidates overrides)
          (sort_appids requested)
        >>= λ results. inr (batch_of target (sort_appids requested) results)

    go :
        (c : Option Fault)
        → validate_batch requested candidates target requirements overrides ≡ c
        → (checked c tt >>= λ _. from) ≡ inl f
        → (c ≡ some f) ⊎ IsUnevaluated overrides f
    go (some g) e k = inl (ap some (inl_inj k))
    go none e k = inr (
        RaisesOnly-bind (IsUnevaluated overrides)
          (assess_each (assess_one is_printable target requirements candidates overrides)
            (sort_appids requested))
          _
          (assess_each-RaisesOnly (IsUnevaluated overrides)
            (assess_one is_printable target requirements candidates overrides)
            (λ n ok.
              assess_one-IsUnevaluated is_printable prints target requirements overrides candidates
                n a ok)
            (sort_appids requested)
            (any-Permᴰ is_bad_appid (sort_by-perm (λ n. nat n ∷ []) requested)
              ∙ valid_appids requested candidates target requirements overrides e))
          (λ results l. RaisesOnly-inr (IsUnevaluated overrides) _) f k)
