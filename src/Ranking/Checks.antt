-- ===== src/Ranking/Checks.antt =====
-- The validators of src/steam_agent/storage_ranking.py: each raises `ValueError` with one message.
use Prim.Native.Char.{Char}
use steam_cli.Prelude.{
  ℕ, Bool, true, false, not, ◌&&◌, ◌||◌, leb, ltb, ◌==◌, Option, none, some, List, [], ◌∷◌, String,
  str_eq, length, any,
}
use steam_cli.Ranking.Reorder.{is_unique}
unfoldable pub use steam_cli.Checked.{len, any_char}
pub use steam_cli.Checked.{fault_if, ◌then_check◌, checked, checked-cong, checked-inr}

abbrev pub max_bytes : ℕ
max_bytes = 9223372036854775807

abbrev pub max_candidates : ℕ
max_candidates = 10000

-- The messages of the `ValueError`s.
pub data Fault : Type 0 where
  bad_appid bad_name bad_bytes bad_target bad_evidence_ids bad_evidence_id : Fault
  bad_interval half_interval bad_preference : Fault
  too_many_candidates repeated_appid : Fault

-- `none` when nothing is raised.
abbrev pub Check : Type 0
Check = Option Fault

abbrev pub validate_appid : ℕ → Check
validate_appid value = fault_if (not (leb 1 value && leb value 4294967295)) bad_appid

-- `str.isprintable` reads Python's character tables: a parameter.
unfoldable pub validate_name : (Char → Bool) → Option String → Check
unfolding len any_char
validate_name is_printable none = none
validate_name is_printable (some value) =
    fault_if (ltb 512 (len value) || any_char (λ c. not (is_printable c)) value) bad_name

abbrev pub validate_bytes : ℕ → Check
validate_bytes value = fault_if (not (leb value max_bytes)) bad_bytes

abbrev pub validate_optional_bytes : Option ℕ → Check
validate_optional_bytes none = none
validate_optional_bytes (some value) = validate_bytes value

abbrev pub validate_positive_bytes : ℕ → Check
validate_positive_bytes value = validate_bytes value then_check fault_if (value == 0) bad_target

-- `int | str`
pub data EvidenceId : Type 0 where
  row_id : ℕ → EvidenceId
  text_id : String → EvidenceId

abbrev is_id : EvidenceId → EvidenceId → Bool
is_id (row_id a) (row_id b) = a == b
is_id (text_id a) (text_id b) = str_eq a b
is_id _ _ = false

abbrev ids_unique : List EvidenceId → Bool
ids_unique [] = true
ids_unique (x ∷ xs) = not (any (is_id x) xs) && ids_unique xs

abbrev bad_id : EvidenceId → Bool
bad_id (row_id n) = n == 0
bad_id (text_id s) = (len s == 0) || ltb 128 (len s)

unfoldable pub validate_evidence_ids : List EvidenceId → Check
unfolding len
validate_evidence_ids value =
    fault_if (ltb 32 (length value) || not (ids_unique value)) bad_evidence_ids
    then_check fault_if (any bad_id value) bad_evidence_id

abbrev pub candidates_check : ℕ → Bool → Check
candidates_check count unique =
    fault_if (ltb max_candidates count) too_many_candidates
    then_check fault_if (not unique) repeated_appid

-- `_validate_candidates` on the AppIDs of the candidates.
unfoldable pub validate_candidates : List ℕ → Check
unfolding is_unique
validate_candidates appids = candidates_check (length appids) (is_unique appids)
