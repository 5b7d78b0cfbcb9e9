-- ===== src/Compatibility/Derived.antt =====
-- The evidence that src/steam_agent/compatibility.py makes from accepted evidence is not refused.
use Prim.Native.Char.{Char}
use Prim.Native.String.{◌++◌ as append}
use steam_cli.Prelude.{
  ◌≤◌, Bool, true, false, not, ◌&&◌, ◌||◌, Option, none, some, is_some, String, inl, inr, ◌≡◌, refl,
  ap, arith, Bool-cases,
}
use steam_cli.Checked.{fault_if, len, any_char}
use steam_cli.Compatibility.Texts.{
  Fault, bad_text, is_bad_text, check_text, check_ids, unique_by, is_slug,
}
use steam_cli.Compatibility.Evidence.{
  same_state, GateState, pass, fail, unknown, is_unknown, is_fail, is_expired, PrimitiveEvidence,
  check_state, nothing_observed, unknown_evidence,
}
use steam_cli.Compatibility.Target.{
  state_of_presence, RuntimeRisk, Presence, present, absent, unobserved, check_risk,
}
use steam_cli.Compatibility.Gate.{expired_fact, effective_fact}
use steam_cli.Compatibility.Raw.{is_observed, as_gate, of_present, is_blocking, evidence_for}
use steam_cli.Compatibility.Printable.{
  PrintsCodes, is_code_char, code-is_bad_text, append-is_bad_text,
}
use steam_cli.Compatibility.Accepted.{
  RaisesOnly, IsAccepted, primitive_evidence-RaisesOnly, primitive_evidence-IsAccepted,
}

-- A risk that its constructor accepts, with accepted evidence.
pub record IsAcceptedRisk (is_printable : Char → Bool) (r : RuntimeRisk) : Type 0 where
  pub evidence : IsAccepted is_printable r.evidence
  pub checks : check_risk r ≡ none

-- What the presence of a risk says of the state of its evidence.
risk_is_slug : (r : RuntimeRisk) → check_risk r ≡ none → is_slug r.name ≡ true
unfolding check_risk
risk_is_slug r h = ground arith

risk_state :
    (r : RuntimeRisk) (p : Presence)
    → r.presence ≡ p
    → check_risk r ≡ none
    → same_state r.evidence.state (state_of_presence p) ≡ true
unfolding check_risk
risk_state r p e h = rw (← e) (ground arith)

not_unknown :
    (s : GateState) (p : Presence)
    → is_observed p ≡ true
    → same_state s (state_of_presence p) ≡ true
    → is_unknown s ≡ false
not_unknown pass p o h = refl
not_unknown fail p o h = refl
not_unknown unknown present o h = cc
not_unknown unknown absent o h = cc
not_unknown unknown unobserved o h = cc

as_gate-state :
    (e : PrimitiveEvidence) (s : GateState) (c : Option String)
    → check_state e ≡ none
    → is_unknown e.state ≡ false
    → is_unknown s ≡ false
    → (is_fail s && is_some c) ≡ false
    → check_state (as_gate e s c) ≡ none
unfolding check_state
as_gate-state e s c h known k alone = ground arith

module _ (is_printable : Char → Bool) (prints : PrintsCodes is_printable) where
  -- A reason that is a code can be given.
  nothing_observed-IsAccepted :
      (reason : String)
      → is_bad_text is_printable reason ≡ false
      → IsAccepted is_printable (nothing_observed false reason)
  unfolding check_state check_ids unique_by
  nothing_observed-IsAccepted reason h = record {
    source = refl;
    ids = refl;
    reason = ap (λ b. fault_if b bad_text) h;
    condition = refl;
    agreed = refl;
    state = refl;
  }

  pub unknown_evidence-RaisesOnly :
      (Q : Fault → Type 0) (reason : String)
      → any_char (λ c. not (is_code_char c)) reason ≡ false
      → 1 ≤ len reason
      → len reason ≤ 256
      → RaisesOnly Q (unknown_evidence is_printable false reason)
  unfolding unknown_evidence
  unknown_evidence-RaisesOnly Q reason h low high =
      primitive_evidence-RaisesOnly is_printable Q (nothing_observed false reason) (
        nothing_observed-IsAccepted reason (code-is_bad_text is_printable prints reason h low high))

  pub unknown_evidence-IsAccepted :
      (reason : String) (e : PrimitiveEvidence)
      → unknown_evidence is_printable false reason ≡ inr e
      → IsAccepted is_printable e
  unfolding unknown_evidence
  unknown_evidence-IsAccepted reason e h =
      primitive_evidence-IsAccepted is_printable (nothing_observed false reason) e h

  -- Known evidence with another known state, and a condition only where it passes.
  as_gate-IsAccepted :
      (e : PrimitiveEvidence) (s : GateState) (c : Option String)
      → IsAccepted is_printable e
      → is_unknown e.state ≡ false
      → is_unknown s ≡ false
      → check_text is_printable c ≡ none
      → (is_fail s && is_some c) ≡ false
      → IsAccepted is_printable (as_gate e s c)
  as_gate-IsAccepted e s c a known k text alone = record {
    source = a.source;
    ids = a.ids;
    reason = refl;
    condition = text;
    agreed = refl;
    state = as_gate-state e s c a.state known k alone;
  }

  of_present-IsAccepted :
      (r : RuntimeRisk) (b : Bool)
      → is_blocking r.impact ≡ b
      → IsAcceptedRisk is_printable r
      → is_unknown r.evidence.state ≡ false
      → IsAccepted is_printable (of_present r)
  of_present-IsAccepted r true e a known =
      rw e (as_gate-IsAccepted r.evidence fail none a.evidence known refl refl refl)
  of_present-IsAccepted r false e a known = rw e (
      as_gate-IsAccepted r.evidence pass (some (append "runtime_risk:" r.name)) a.evidence known
        refl
        (ap (λ b. fault_if b bad_text)
          (append-is_bad_text is_printable prints "runtime_risk:" r.name (unfold any_char in refl)
            (unfold len in omega arith) (unfold len in omega arith) (risk_is_slug r a.checks)))
        refl)

  pub evidence_for-RaisesOnly :
      (Q : Fault → Type 0) (p : Presence) (r : RuntimeRisk)
      → r.presence ≡ p
      → IsAcceptedRisk is_printable r
      → RaisesOnly Q (evidence_for is_printable p r)
  unfolding evidence_for
  evidence_for-RaisesOnly Q present r e a =
      primitive_evidence-RaisesOnly is_printable Q (of_present r) (
        of_present-IsAccepted r (is_blocking r.impact) refl a
          (not_unknown r.evidence.state present refl (risk_state r present e a.checks)))
  evidence_for-RaisesOnly Q absent r e a =
      primitive_evidence-RaisesOnly is_printable Q (as_gate r.evidence pass none) (
        as_gate-IsAccepted r.evidence pass none a.evidence
          (not_unknown r.evidence.state absent refl (risk_state r absent e a.checks)) refl refl
          refl)
  evidence_for-RaisesOnly Q unobserved r e a = λ f h. cc

  expired-IsAccepted :
      (e : PrimitiveEvidence) → IsAccepted is_printable e → IsAccepted is_printable (expired_fact e)
  unfolding check_state
  expired-IsAccepted e a = record {
    source = a.source;
    ids = a.ids;
    reason =
        ap (λ b. fault_if b bad_text)
          (code-is_bad_text is_printable prints "evidence_expired" (unfold any_char in refl)
            (unfold len in omega arith) (unfold len in omega arith));
    condition = refl;
    agreed = refl;
    state = refl;
  }

  pub effective_fact-RaisesOnly :
      (Q : Fault → Type 0) (e : PrimitiveEvidence)
      → IsAccepted is_printable e
      → RaisesOnly Q (effective_fact is_printable e)
  unfolding effective_fact
  effective_fact-RaisesOnly Q e a =
      elim (Bool-cases (is_unknown e.state || not (is_expired e.freshness))) [
        | inl same ↦ rw same (λ f h. cc)
        | inr old ↦
            rw old (
              primitive_evidence-RaisesOnly is_printable Q (expired_fact e)
                (expired-IsAccepted e a))
      ]
