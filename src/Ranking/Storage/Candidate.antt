-- ===== src/Ranking/Storage/Candidate.antt =====
-- The candidates of src/steam_agent/storage_ranking.py and the checks of their constructors.
use Prim.Native.Char.{Char}
use steam_cli.Prelude.{ℕ, Bool, not, ◌&&◌, leb, Option, none, some, List, String}
use steam_cli.Ranking.Order.{ℤ, pos, negsuc, int_le}
use steam_cli.Ranking.Checks.{
  Check, fault_if, ◌then_check◌, EvidenceId, validate_appid, validate_name, validate_bytes,
  validate_optional_bytes, validate_evidence_ids, bad_interval, half_interval, bad_preference,
}

pub data EvidenceState : Type 0 where
  present absent unknown : EvidenceState

pub data Freshness : Type 0 where
  fresh stale unsure : Freshness

pub data GateState : Type 0 where
  pass fail undecided : GateState

pub data Eligibility : Type 0 where
  eligible conditional excluded : Eligibility

pub record ReclaimCandidate : Type 0 where
  pub appid : ℕ
  pub name : Option String
  pub installed : EvidenceState
  pub freshness : Freshness
  pub size_bytes : Option ℕ
  pub evidence_ids : List EvidenceId
  pub residual : EvidenceState

pub record TravelCandidate : Type 0 where
  pub appid : ℕ
  pub name : Option String
  pub ownership : EvidenceState
  pub ownership_freshness : Freshness
  pub installed : EvidenceState
  pub installed_freshness : Freshness
  pub compatibility : GateState
  pub storage_lower_bytes : Option ℕ
  pub storage_upper_bytes : Option ℕ
  pub preference_score_bps : Option ℤ
  pub evidence_ids : List EvidenceId

-- `__post_init__`; the tests on literals hold by the types.
unfoldable pub check_reclaim : (Char → Bool) → ReclaimCandidate → Check
check_reclaim is_printable c =
    validate_appid c.appid
    then_check validate_name is_printable c.name
    then_check validate_optional_bytes c.size_bytes
    then_check validate_evidence_ids c.evidence_ids

unfoldable pub check_interval : Option ℕ → Option ℕ → Check
check_interval none none = none
check_interval (some lower) (some upper) =
    validate_bytes lower
    then_check validate_bytes upper
    then_check fault_if (not (leb 1 lower && leb lower upper)) bad_interval
check_interval none (some upper) = some half_interval
check_interval (some lower) none = some half_interval

abbrev check_preference : Option ℤ → Check
check_preference none = none
check_preference (some score) =
    fault_if (not (int_le (negsuc 9999) score && int_le score (pos 10000))) bad_preference

unfoldable pub check_travel : (Char → Bool) → TravelCandidate → Check
unfolding check_interval int_le
check_travel is_printable c =
    validate_appid c.appid
    then_check validate_name is_printable c.name
    then_check check_interval c.storage_lower_bytes c.storage_upper_bytes
    then_check check_preference c.preference_score_bps
    then_check validate_evidence_ids c.evidence_ids

-- `value is None`, as a component of a key.
abbrev pub flag_none : Option ℕ → ℕ
flag_none none = 1
flag_none (some _) = 0

-- `value or 0`
abbrev pub or_zero : Option ℕ → ℕ
or_zero none = 0
or_zero (some n) = n
