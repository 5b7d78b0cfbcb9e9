-- ===== src/Compatibility/Accepted.antt =====
-- Evidence that the constructor of src/steam_agent/compatibility.py accepts, and the evidence that is
-- made from it: none of it is refused.
use Prim.Native.Char.{Char}
use mathlib.Core.Path.{subst}
use steam_cli.Prelude.{
  Bool, true, false, not, ◌&&◌, none, some, String, str_eq, eq_iff, List, ◌⊎◌, inl, inr, ◌≡◌, refl,
  ◌∙◌, sym, arith,
}
use steam_cli.Checked.{fault_if, checked, checked-inr, then_check-none}
use steam_cli.Ranking.Sort.{sort_by-perm}
use steam_cli.Ranking.Reorder.{length-Permᴰ, any-Permᴰ}
use steam_cli.Compatibility.Texts.{
  Fault, Check, known_conflict, is_bad_text, check_text, check_ids, sort_texts, text_key,
}
use steam_cli.Compatibility.Evidence.{
  is_unknown, PrimitiveEvidence, check_state, check_evidence, primitive_evidence,
}
use steam_cli.Compatibility.Lookup.{unique_by-Permᴰ}

-- A run that raises nothing, or only what is allowed.
abbrev pub RaisesOnly : {A : Type 0} → (Fault → Type 0) → Fault ⊎ A → Type 0
RaisesOnly Q r = (f : Fault) → r ≡ inl f → Q f

-- Each check of the constructor of evidence.
pub record IsAccepted (is_printable : Char → Bool) (e : PrimitiveEvidence) : Type 0 where
  pub source : check_text is_printable e.source ≡ none
  pub ids : check_ids is_printable e.evidence_ids ≡ none
  pub reason : check_text is_printable e.unknown_reason ≡ none
  pub condition : check_text is_printable e.condition ≡ none
  pub agreed : (e.conflict && not (is_unknown e.state)) ≡ false
  pub state : check_state e ≡ none

fault_if-none : (b : Bool) (f : Fault) → fault_if b f ≡ none → b ≡ false
fault_if-none true f h = cc
fault_if-none false f h = refl

module _ (is_printable : Char → Bool) where
  check_evidence-IsAccepted :
      (e : PrimitiveEvidence) → check_evidence is_printable e ≡ none → IsAccepted is_printable e
  unfolding check_evidence
  check_evidence-IsAccepted e h =
      let (source, h1) = then_check-none (check_text is_printable e.source) _ h in
      let (ids, h2) = then_check-none (check_ids is_printable e.evidence_ids) _ h1 in
      let (reason, h3) = then_check-none (check_text is_printable e.unknown_reason) _ h2 in
      let (condition, h4) = then_check-none (check_text is_printable e.condition) _ h3 in
      let (agreed, state) =
        then_check-none (fault_if (e.conflict && not (is_unknown e.state)) known_conflict) _ h4 in
      record {
        source = source;
        ids = ids;
        reason = reason;
        condition = condition;
        agreed = fault_if-none _ known_conflict agreed;
        state = state;
      }

  IsAccepted-check_evidence :
      (e : PrimitiveEvidence) → IsAccepted is_printable e → check_evidence is_printable e ≡ none
  unfolding check_evidence
  IsAccepted-check_evidence e a = rw (a.source, a.ids, a.reason, a.condition, a.agreed) a.state

  pub primitive_evidence-RaisesOnly :
      (Q : Fault → Type 0) (e : PrimitiveEvidence)
      → IsAccepted is_printable e
      → RaisesOnly Q (primitive_evidence is_printable e)
  unfolding primitive_evidence
  primitive_evidence-RaisesOnly Q e a f h =
      absurd (go (check_evidence is_printable e) (IsAccepted-check_evidence e a) h)
    where
      go :
          (c : Check)
          → c ≡ none
          → checked c (record e { evidence_ids = sort_texts e.evidence_ids }) ≡ inl f
          → ⊥
      go none k h = cc
      go (some g) k h = cc

  -- A sorted list of identifiers passes as the list does.
  check_ids-sort_texts :
      (ss : List String) → check_ids is_printable (sort_texts ss) ≡ check_ids is_printable ss
  unfolding check_ids
  check_ids-sort_texts ss = rw (
    length-Permᴰ (sort_by-perm text_key ss),
    any-Permᴰ (is_bad_text is_printable) (sort_by-perm text_key ss),
    unique_by-Permᴰ str_eq (λ s t. ground (arith, eq_iff s t, eq_iff t s))
        (sort_by-perm text_key ss),
  )

  sorted_state :
      (e : PrimitiveEvidence)
      → check_state (record e { evidence_ids = sort_texts e.evidence_ids }) ≡ check_state e
  unfolding check_state
  sorted_state e = rw (length-Permᴰ (sort_by-perm text_key e.evidence_ids))

  -- What the constructor returns is accepted again.
  pub primitive_evidence-IsAccepted :
      (e f : PrimitiveEvidence)
      → primitive_evidence is_printable e ≡ inr f
      → IsAccepted is_printable f
  unfolding primitive_evidence
  primitive_evidence-IsAccepted e f h =
      let (passed, made) = checked-inr (check_evidence is_printable e) h in
      let a = check_evidence-IsAccepted e passed in
      subst (IsAccepted is_printable) (sym made) (record {
        source = a.source;
        ids = check_ids-sort_texts e.evidence_ids ∙ a.ids;
        reason = a.reason;
        condition = a.condition;
        agreed = a.agreed;
        state = sorted_state e ∙ a.state;
      })
