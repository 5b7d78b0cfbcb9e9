-- ===== src/Compatibility/Attributed.antt =====
-- What the constructor of evidence in src/steam_agent/compatibility.py makes sure of.
use Prim.Native.Char.{Char}
use mathlib.Core.Path.{subst}
use steam_cli.Prelude.{
  ◌<◌, Bool, true, false, not, ◌&&◌, none, is_some, List, length, String, ◌⊎◌, inl, inr, ◌≡◌, sym,
  arith, Bool-cases,
}
use steam_cli.Checked.{then_check-none, ◌then_check◌, fault_if, checked-inr}
use steam_cli.Ranking.Sort.{sort_by-perm}
use steam_cli.Ranking.Reorder.{length-Permᴰ}
use steam_cli.Compatibility.Texts.{
  known_conflict, Check, check_text, check_ids, sort_texts, text_key,
}
use steam_cli.Compatibility.Evidence.{
  is_unknown, is_unsure, PrimitiveEvidence, nothing_observed, check_state, check_evidence,
  primitive_evidence, unknown_evidence,
}

-- Evidence that says something has a source, a time, lineage and a known age, and no conflict.
pub record IsAttributed (e : PrimitiveEvidence) : Type 0 where
  pub source : is_some e.source ≡ true
  pub observed : is_some e.observed_at ≡ true
  pub lineage : 0 < length e.evidence_ids
  pub dated : is_unsure e.freshness ≡ false
  pub agreed : e.conflict ≡ false

-- What the constructor of evidence makes sure of.
abbrev pub IsMade : PrimitiveEvidence → Type 0
IsMade e = (is_unknown e.state ≡ true) ⊎ IsAttributed e

length-sort_texts : (ss : List String) → length (sort_texts ss) ≡ length ss
length-sort_texts ss = length-Permᴰ (sort_by-perm text_key ss)

-- The checks that are about lineage.
abbrev lineage_checks : PrimitiveEvidence → Check
lineage_checks e =
    fault_if (e.conflict && not (is_unknown e.state)) known_conflict then_check check_state e

sorted_ids : PrimitiveEvidence → PrimitiveEvidence
sorted_ids e = record e { evidence_ids = sort_texts e.evidence_ids }

lineage_checks-IsMade : (e : PrimitiveEvidence) → lineage_checks e ≡ none → IsMade (sorted_ids e)
unfolding check_state sorted_ids
lineage_checks-IsMade e h = elim (Bool-cases (is_unknown e.state)) [
  | inl u ↦ inl u
  | inr k ↦ inr (record {
    source = ground arith;
    observed = ground arith;
    lineage = ground (arith, length-sort_texts e.evidence_ids);
    dated = ground arith;
    agreed = ground arith;
  })
]

module _ (is_printable : Char → Bool) where
  pub primitive_evidence-IsMade :
      (e f : PrimitiveEvidence) → primitive_evidence is_printable e ≡ inr f → IsMade f
  unfolding primitive_evidence sorted_ids
  primitive_evidence-IsMade e f h =
      let (passed, made) = checked-inr (check_evidence is_printable e) h in
      subst IsMade (sym made) (lineage_checks-IsMade e (last_checks passed))
    where
      last_checks : check_evidence is_printable e ≡ none → lineage_checks e ≡ none
      last_checks p =
          (then_check-none (check_text is_printable e.condition) _
            (then_check-none (check_text is_printable e.unknown_reason) _
              (then_check-none (check_ids is_printable e.evidence_ids) _
                (then_check-none (check_text is_printable e.source) _
                  (unfold check_evidence in p)).1).1).1).1

  pub unknown_evidence-IsMade :
      (b : Bool) (reason : String) (f : PrimitiveEvidence)
      → unknown_evidence is_printable b reason ≡ inr f
      → IsMade f
  unfolding unknown_evidence
  unknown_evidence-IsMade b reason f h = primitive_evidence-IsMade (nothing_observed b reason) f h
