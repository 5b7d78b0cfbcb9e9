-- ===== src/Compatibility/Target.antt =====
-- The target of an assessment, and what is known of a title there: `CompatibilityTarget`,
-- `RuntimeRisk`, `FeatureEvidence`, `FeatureRequirement`, `TargetReview` and `valve_deck_review`.
use Prim.Native.Char.{Char}
use steam_cli.Prelude.{
  ℕ, Bool, true, false, not, ◌&&◌, ◌||◌, if◌then◌else◌, Option, none, some, is_some, is_none, List,
  [], ◌∷◌, String, str_eq, ◌⊎◌, inl, inr,
}
use steam_cli.Checked.{fault_if, ◌then_check◌, checked, ◌>>=◌}
use steam_cli.Ranking.Order.{Key, text}
use steam_cli.Compatibility.Texts.{
  Fault, Check, bad_target_key, deck_off_steamos, bad_risk_name, risk_disagrees, bad_feature_name,
  bad_requirement_name, review_disagrees, playable_without_condition, condition_without_playable,
  not_deck_target, is_slug, is_machine_key,
}
use steam_cli.Compatibility.Evidence.{
  GateState, pass, fail, unknown, same_state, Freshness, official, PrimitiveEvidence,
  primitive_evidence,
}

pub data TargetKind : Type 0 where
  machine valve_deck : TargetKind

pub data TargetPlatform : Type 0 where
  windows macos linux steamos : TargetPlatform

abbrev pub is_deck : TargetKind → Bool
is_deck valve_deck = true
is_deck machine = false

abbrev pub same_kind : TargetKind → TargetKind → Bool
same_kind valve_deck k = is_deck k
same_kind machine k = not (is_deck k)

abbrev pub platform_name : TargetPlatform → String
platform_name windows = "windows"
platform_name macos = "macos"
platform_name linux = "linux"
platform_name steamos = "steamos"

pub record CompatibilityTarget : Type 0 where
  pub kind : TargetKind
  pub key : String
  pub platform : TargetPlatform

abbrev pub same_platform : TargetPlatform → TargetPlatform → Bool
same_platform p q = str_eq (platform_name p) (platform_name q)

abbrev pub same_target : CompatibilityTarget → CompatibilityTarget → Bool
same_target s t =
    same_kind s.kind t.kind && str_eq s.key t.key && same_platform s.platform t.platform

unfoldable pub check_compatibility_target : CompatibilityTarget → Check
unfolding is_slug is_machine_key
check_compatibility_target t =
    fault_if (not (if is_deck t.kind then is_slug t.key else is_machine_key t.key)) bad_target_key
    then_check fault_if (is_deck t.kind && not (same_platform t.platform steamos)) deck_off_steamos

-- `unobserved` is the literal "unknown".
pub data Presence : Type 0 where
  present absent unobserved : Presence

pub data Impact : Type 0 where
  blocking manual runtime : Impact

pub record RuntimeRisk : Type 0 where
  pub name : String
  pub presence : Presence
  pub impact : Impact
  pub evidence : PrimitiveEvidence

abbrev pub state_of_presence : Presence → GateState
state_of_presence present = pass
state_of_presence absent = fail
state_of_presence unobserved = unknown

unfoldable pub check_risk : RuntimeRisk → Check
unfolding is_slug
check_risk r =
    fault_if (not (is_slug r.name)) bad_risk_name
    then_check fault_if (not (same_state r.evidence.state (state_of_presence r.presence)))
        risk_disagrees

pub data FeatureKind : Type 0 where
  accessibility input language : FeatureKind

abbrev pub kind_name : FeatureKind → String
kind_name accessibility = "accessibility"
kind_name input = "input"
kind_name language = "language"

pub record FeatureEvidence : Type 0 where
  pub kind : FeatureKind
  pub name : String
  pub support : PrimitiveEvidence

pub record FeatureRequirement : Type 0 where
  pub kind : FeatureKind
  pub name : String

-- `(item.kind, item.name)`, which orders the kinds by their names.
abbrev pub feature_key : FeatureKind → String → Key
feature_key kind name = text (kind_name kind) ∷ text name ∷ []

abbrev pub same_feature : FeatureKind → String → FeatureKind → String → Bool
same_feature k m l n = str_eq (kind_name k) (kind_name l) && str_eq m n

unfoldable pub check_feature : FeatureEvidence → Check
unfolding is_slug
check_feature f = fault_if (not (is_slug f.name)) bad_feature_name

unfoldable pub check_requirement : FeatureRequirement → Check
unfolding is_slug
check_requirement r = fault_if (not (is_slug r.name)) bad_requirement_name

-- `unrated` is the literal "unknown".
pub data Rating : Type 0 where
  verified playable unsupported unrated : Rating

abbrev pub is_playable : Rating → Bool
is_playable playable = true
is_playable _ = false

abbrev pub state_of_rating : Rating → GateState
state_of_rating verified = pass
state_of_rating playable = pass
state_of_rating unsupported = fail
state_of_rating unrated = unknown

pub record TargetReview : Type 0 where
  pub target : CompatibilityTarget
  pub rating : Rating
  pub evidence : PrimitiveEvidence

unfoldable pub check_review : TargetReview → Check
check_review r =
    fault_if (not (same_state r.evidence.state (state_of_rating r.rating))) review_disagrees
    then_check fault_if (is_playable r.rating && is_none r.evidence.condition)
        playable_without_condition
    then_check fault_if (not (is_playable r.rating) && is_some r.evidence.condition)
        condition_without_playable

unfoldable pub target_review : TargetReview → Fault ⊎ TargetReview
unfolding check_review
target_review r = checked (check_review r) r

-- The condition and the explanation of a rating, or a fault.
unfoldable pub rating_texts : Rating → Option String → Fault ⊎ (Option String × Option String)
rating_texts unrated condition = inr (none, some "valve_deck_rating_unknown")
rating_texts playable none = inr (some "valve_deck_playable_requires_user_attention", none)
rating_texts playable (some condition) = inr (some condition, none)
rating_texts rating none = inr (none, none)
rating_texts rating (some condition) = inl condition_without_playable

unfoldable pub valve_deck_review :
    (Char → Bool)
    → Rating
    → CompatibilityTarget
    → Option String
    → Option ℕ
    → Freshness
    → List String
    → Option String
    → Fault ⊎ TargetReview
unfolding rating_texts primitive_evidence target_review
valve_deck_review is_printable rating target source observed_at freshness evidence_ids condition =
    if not (is_deck target.kind) || not (same_platform target.platform steamos)
    then inl not_deck_target
    else rating_texts rating condition >>= λ texts.
        primitive_evidence is_printable (record {
          state = state_of_rating rating;
          source = source;
          support_level = official;
          observed_at = observed_at;
          freshness = freshness;
          evidence_ids = evidence_ids;
          conflict = false;
          unknown_reason = texts.1;
          condition = texts.0;
        })
        >>= λ evidence.
            target_review (record { target = target; rating = rating; evidence = evidence })
