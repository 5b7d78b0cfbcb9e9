-- ===== src/Ranking/Storage/Reclaim.antt =====
-- `rank_reclaim_space` of src/steam_agent/storage_ranking.py.
use mathlib.Core.Option
use steam_cli.Prelude.{ℕ, Bool, leb, Option, List, [], ◌∷◌, ◌++◌, map, String, ◌*◌, ◌/◌, ◌⊎◌}
use steam_cli.Ranking.Order.{neg, Key, number, nat}
use steam_cli.Ranking.Sort.{sort_by}
use steam_cli.Ranking.Checks.{
  Fault, EvidenceId, ◌then_check◌, checked, validate_candidates, validate_positive_bytes,
}
use steam_cli.Ranking.Storage.Candidate.{
  ReclaimCandidate, EvidenceState, present, absent, unknown, Freshness, pass, Eligibility, eligible,
  conditional, excluded, flag_none, or_zero,
}
use steam_cli.Ranking.Storage.Gates.{
  Gate, gate, presence_gate, freshness_gate, size_gate, eligibility_of,
}

pub record ReclaimResult : Type 0 where
  pub appid : ℕ
  pub name : Option String
  pub eligibility : Eligibility
  pub gates : List Gate
  pub reclaim_bytes : Option ℕ
  pub meets_target_alone : Option Bool
  pub target_fraction_bps : Option ℕ
  pub freshness : Freshness
  pub warning : String
  pub evidence_ids : List EvidenceId

pub record ReclaimRanking : Type 0 where
  pub target_bytes : ℕ
  pub results : List ReclaimResult

abbrev residual_gates : EvidenceState → List Gate
residual_gates present = gate "residual_content" pass "residual_content_present" ∷ []
residual_gates absent = []
residual_gates unknown = []

abbrev pub basic_gates : ReclaimCandidate → List Gate
basic_gates item =
    presence_gate item.installed ∷ freshness_gate item.freshness ∷ size_gate item.size_bytes ∷ []

-- `//` after the check that the target is positive.
abbrev pub fraction_bps : ℕ → ℕ → ℕ
fraction_bps reclaim target = (reclaim * 10000) / target

unfoldable pub reclaim_item : ℕ → ReclaimCandidate → ReclaimResult
unfolding presence_gate freshness_gate size_gate eligibility_of
reclaim_item target item = record {
  appid = item.appid;
  name = item.name;
  eligibility = eligibility_of (basic_gates item);
  gates = basic_gates item ++ residual_gates item.residual;
  reclaim_bytes = item.size_bytes;
  meets_target_alone = Option.map (leb target) item.size_bytes;
  target_fraction_bps = Option.map (λ reclaim. fraction_bps reclaim target) item.size_bytes;
  freshness = item.freshness;
  warning = "content_size_does_not_prove_action_safety";
  evidence_ids = item.evidence_ids;
}

abbrev pub eligibility_order : Eligibility → ℕ
eligibility_order eligible = 0
eligibility_order conditional = 1
eligibility_order excluded = 2

-- The Boolean `reclaim_bytes is None` and the number after it.
unfoldable pub reclaim_key : ReclaimResult → Key
reclaim_key r =
    nat (eligibility_order r.eligibility)
    ∷ nat (flag_none r.reclaim_bytes)
    ∷ number (neg (or_zero r.reclaim_bytes))
    ∷ nat r.appid
    ∷ []

unfoldable pub rank_reclaim_space : List ReclaimCandidate → ℕ → Fault ⊎ ReclaimRanking
unfolding validate_candidates reclaim_item reclaim_key sort_by
rank_reclaim_space candidates target =
    checked
      (validate_candidates (map (λ c. c.appid) candidates)
        then_check validate_positive_bytes target)
      (record {
        target_bytes = target;
        results = sort_by reclaim_key (map (reclaim_item target) candidates);
      })
