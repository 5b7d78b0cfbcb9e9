-- ===== src/Compatibility/Texts.antt =====
-- The patterns and the validators of texts of src/steam_agent/compatibility.py.
use Prim.Native.Char.{Char, code}
use steam_cli.Prelude.{
  ℕ, Bool, true, false, not, ◌&&◌, ◌||◌, leb, ltb, ◌==◌, Option, none, some, List, [], ◌∷◌, String,
  str_eq, length, any,
}
use steam_cli.Checked.{fault_if, ◌then_check◌, len, any_char}
use steam_cli.Ranking.Order.{Key, text}
use steam_cli.Ranking.Sort.{sort_by}

-- The messages of the `ValueError`s.
pub data Fault : Type 0 where
  bad_text bad_ids repeated_ids bad_appid : Fault
  bad_target_key deck_off_steamos : Fault
  known_conflict unexplained_unknown conditional_unknown : Fault
  explained_known unattributed_known undated_known conditional_fail : Fault
  bad_risk_name risk_disagrees bad_feature_name bad_requirement_name : Fault
  review_disagrees playable_without_condition condition_without_playable : Fault
  too_many_components repeated_components : Fault
  bad_override_name bad_override_gate override_without_lineage : Fault
  bad_capacity too_many_appids too_many_requests repeated_appids : Fault
  repeated_requirements repeated_overrides override_not_requested too_much_work : Fault
  repeated_candidates candidate_not_requested candidate_off_target unevaluated_gate : Fault
  bad_quantity repeated_architectures declared_without_text text_without_declaration : Fault
  not_deck_target : Fault

abbrev pub Check : Type 0
Check = Option Fault

abbrev is_lower : Char → Bool
is_lower c = leb b'a' (code c) && leb (code c) b'z'

abbrev is_digit : Char → Bool
is_digit c = leb b'0' (code c) && leb (code c) b'9'

abbrev is_upper : Char → Bool
is_upper c = leb b'A' (code c) && leb (code c) b'Z'

-- `[a-z0-9]`
abbrev pub lower_alnum : Char → Bool
lower_alnum c = is_lower c || is_digit c

-- `[A-Za-z0-9]`
abbrev alnum : Char → Bool
alnum c = lower_alnum c || is_upper c

-- `[._-]`
abbrev pub is_mark : Char → Bool
is_mark c = (code c == b'.') || (code c == b'_') || (code c == b'-')

abbrev starts : (Char → Bool) → String → Bool
starts p String.[] = false
starts p (String.◌∷◌ c s) = p c

-- Whether the last character passes, after one that does or does not.
unfoldable pub ends : (Char → Bool) → Bool → String → Bool
ends p before String.[] = before
ends p before (String.◌∷◌ c s) = ends p (p c) s

-- `fullmatch` of a first character, characters between, and a last one, up to a length.
abbrev matches : (Char → Bool) → (Char → Bool) → (Char → Bool) → ℕ → String → Bool
matches at_start between at_end bound s =
    starts at_start s
    && ends at_end false s
    && not (any_char (λ c. not (between c)) s)
    && leb (len s) bound

unfoldable pub is_slug : String → Bool
unfolding ends len any_char
is_slug s = matches lower_alnum (λ c. lower_alnum c || is_mark c) lower_alnum 64 s

unfoldable pub is_machine_key : String → Bool
unfolding ends len any_char
is_machine_key s = matches alnum (λ c. alnum c || is_mark c) (λ c. alnum c || is_mark c) 64 s

unfoldable pub is_gate : String → Bool
unfolding ends len any_char
is_gate s =
    matches lower_alnum (λ c. lower_alnum c || is_mark c || (code c == b':')) lower_alnum 128 s

-- `len(values) == len(set(values))`, for the equality of the values.
unfoldable pub unique_by {ℓ} : {A : Type ℓ} → (A → A → Bool) → List A → Bool
unique_by same [] = true
unique_by same (x ∷ xs) = not (any (same x) xs) && unique_by same xs

abbrev pub text_key : String → Key
text_key s = text s ∷ []

-- `sorted` of texts.
abbrev pub sort_texts : List String → List String
sort_texts = sort_by text_key

module _ (is_printable : Char → Bool) where
  unfoldable pub is_bad_text : String → Bool
  unfolding len any_char
  is_bad_text value =
      (len value == 0) || ltb 256 (len value) || any_char (λ c. not (is_printable c)) value

  abbrev pub check_text : Option String → Check
  check_text none = none
  check_text (some value) = fault_if (is_bad_text value) bad_text

  unfoldable pub check_ids : List String → Check
  unfolding unique_by is_bad_text
  check_ids values =
      fault_if (ltb 64 (length values)) bad_ids
      then_check fault_if (any is_bad_text values) bad_text
      then_check fault_if (not (unique_by str_eq values)) repeated_ids

abbrev pub check_appid : ℕ → Check
check_appid value = fault_if (not (leb 1 value && leb value 4294967295)) bad_appid
