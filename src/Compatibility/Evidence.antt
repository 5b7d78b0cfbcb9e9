-- ===== src/Compatibility/Evidence.antt =====
-- `PrimitiveEvidence` of src/steam_agent/compatibility.py and the checks of its constructor.
use Prim.Native.Char.{Char}
use steam_cli.Prelude.{
  ℕ, Bool, true, false, not, ◌&&◌, ◌||◌, if◌then◌else◌, ◌==◌, Option, none, some, is_some, is_none,
  List, [], String, length, ◌⊎◌,
}
use steam_cli.Checked.{fault_if, ◌then_check◌, checked}
use steam_cli.Compatibility.Texts.{
  Fault, Check, known_conflict, unexplained_unknown, conditional_unknown, explained_known,
  unattributed_known, undated_known, conditional_fail, check_text, check_ids, sort_texts,
}

pub data GateState : Type 0 where
  pass fail unknown : GateState

-- `unsure` is the literal "unknown".
pub data Freshness : Type 0 where
  fresh stale expired unsure : Freshness

-- `no_level` is the literal "unknown".
pub data SupportLevel : Type 0 where
  official documented provisional community local no_level : SupportLevel

abbrev pub is_unknown : GateState → Bool
is_unknown unknown = true
is_unknown _ = false

abbrev pub is_pass : GateState → Bool
is_pass pass = true
is_pass _ = false

abbrev pub is_fail : GateState → Bool
is_fail fail = true
is_fail _ = false

abbrev pub same_state : GateState → GateState → Bool
same_state pass s = is_pass s
same_state fail s = is_fail s
same_state unknown s = is_unknown s

abbrev pub is_expired : Freshness → Bool
is_expired expired = true
is_expired _ = false

abbrev pub is_stale : Freshness → Bool
is_stale stale = true
is_stale _ = false

abbrev pub is_unsure : Freshness → Bool
is_unsure unsure = true
is_unsure _ = false

-- A fact with its lineage. The conditions and reasons are codes.
pub record PrimitiveEvidence : Type 0 where
  pub state : GateState
  pub source : Option String
  pub support_level : SupportLevel
  pub observed_at : Option ℕ
  pub freshness : Freshness
  pub evidence_ids : List String
  pub conflict : Bool
  pub unknown_reason : Option String
  pub condition : Option String

-- The checks that depend on the state, in the source's order.
unfoldable pub check_state : PrimitiveEvidence → Check
check_state e =
    (if is_unknown e.state
      then fault_if (is_none e.unknown_reason) unexplained_unknown
        then_check fault_if (is_some e.condition) conditional_unknown
      else fault_if (is_some e.unknown_reason) explained_known
        then_check fault_if
            (is_none e.source || is_none e.observed_at || (length e.evidence_ids == 0))
            unattributed_known
        then_check fault_if (is_unsure e.freshness) undated_known)
    then_check fault_if (is_fail e.state && is_some e.condition) conditional_fail

abbrev pub nothing_observed : Bool → String → PrimitiveEvidence
nothing_observed conflict reason = record {
  state = unknown;
  source = none;
  support_level = no_level;
  observed_at = none;
  freshness = unsure;
  evidence_ids = [];
  conflict = conflict;
  unknown_reason = some reason;
  condition = none;
}

module _ (is_printable : Char → Bool) where
  unfoldable pub check_evidence : PrimitiveEvidence → Check
  unfolding check_ids check_state
  check_evidence e =
      check_text is_printable e.source
      then_check check_ids is_printable e.evidence_ids
      then_check check_text is_printable e.unknown_reason
      then_check check_text is_printable e.condition
      then_check fault_if (e.conflict && not (is_unknown e.state)) known_conflict
      then_check check_state e

  -- The constructor: the checks, and the identifiers sorted.
  unfoldable pub primitive_evidence : PrimitiveEvidence → Fault ⊎ PrimitiveEvidence
  unfolding check_evidence
  primitive_evidence e =
      checked (check_evidence e) (record e { evidence_ids = sort_texts e.evidence_ids })

  unfoldable pub unknown_evidence : Bool → String → Fault ⊎ PrimitiveEvidence
  unfolding primitive_evidence
  unknown_evidence conflict reason = primitive_evidence (nothing_observed conflict reason)
