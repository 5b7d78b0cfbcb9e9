-- ===== src/Ranking/Storage/Eligible.antt =====
-- Which candidates src/steam_agent/storage_ranking.py calls eligible or excluded, and what the
-- numbers of a result say.
use Prim.Native.Char.{Char}
use native.Mathlib.Nat.{le-div_iff_mul-le}
use mathlib.Core.Option
use steam_cli.Prelude.{
  String, ℕ, ◌≤◌, ◌*◌, Bool, true, false, leb, ltb, if◌then◌else◌, Option, none, some, [], ◌∷◌, ◌≡◌,
  refl, ap, arith, ◌||◌, ◌&&◌,
}
use steam_cli.Ranking.Storage.Candidate.{
  ReclaimCandidate, TravelCandidate, EvidenceState, present, absent, Freshness, fresh, GateState,
  Eligibility, eligible, conditional, excluded, check_interval, check_travel,
}
use steam_cli.Ranking.Storage.Gates.{
  presence_gate, freshness_gate, size_gate, eligibility_of, fresh_presence_gate, absence_gate,
  compatibility_gate, storage_fit_gate, is_fail,
}
use steam_cli.Ranking.Storage.Reclaim.{reclaim_item, fraction_bps}
use steam_cli.Ranking.Storage.Travel.{travel_item}

-- The eligibility that the observations of an installation, its freshness and the size give.
abbrev pub reclaim_eligibility : EvidenceState → Freshness → Option ℕ → Eligibility
reclaim_eligibility absent _ _ = excluded
reclaim_eligibility present fresh (some _) = eligible
reclaim_eligibility _ _ _ = conditional

-- A candidate is excluded exactly when it is observed absent, and eligible exactly when it is freshly
-- observed present with a known size; whether content stays behind does not matter.
pub reclaim_item-reclaim_eligibility :
    (target : ℕ) (c : ReclaimCandidate)
    → (reclaim_item target c).eligibility ≡ reclaim_eligibility c.installed c.freshness c.size_bytes
unfolding reclaim_item
reclaim_item-reclaim_eligibility target c = table c.installed c.freshness c.size_bytes
  where
    table :
        (i : EvidenceState) (f : Freshness) (s : Option ℕ)
        → eligibility_of (presence_gate i ∷ freshness_gate f ∷ size_gate s ∷ [])
          ≡ reclaim_eligibility i f s
    table i f s = ground arith

-- "At least 10000 basis points of the target" and "at least the target" are one test.
leb-fraction_bps :
    (reclaim target : ℕ) → 1 ≤ target → leb target reclaim ≡ leb 10000 (fraction_bps reclaim target)
leb-fraction_bps reclaim target h =
    ground (arith, le-div_iff_mul-le {k = target} {x = 10000} {y = reclaim * 10000} h)

-- For a positive target, a result meets the target alone exactly when its fraction of the target,
-- rounded down to basis points, is at least the whole; both are unknown exactly when the size is.
pub reclaim_item-fraction_bps :
    (target : ℕ) (c : ReclaimCandidate)
    → 1 ≤ target
    → (reclaim_item target c).meets_target_alone
      ≡ Option.map (leb 10000) (reclaim_item target c).target_fraction_bps
unfolding reclaim_item
reclaim_item-fraction_bps target c h = by_size c.size_bytes
  where
    by_size :
        (s : Option ℕ)
        → Option.map (leb target) s
          ≡ Option.map (leb 10000) (Option.map (λ r. fraction_bps r target) s)
    by_size none = refl
    by_size (some reclaim) = ap some (leb-fraction_bps reclaim target h)

abbrev pub is_absent : EvidenceState → Bool
is_absent absent = true
is_absent _ = false

abbrev pub is_present : EvidenceState → Bool
is_present present = true
is_present _ = false

abbrev pub is_fresh : Freshness → Bool
is_fresh fresh = true
is_fresh _ = false

-- Not even the lower bound fits.
abbrev pub exceeds : Option ℕ → ℕ → Bool
exceeds none budget = false
exceeds (some lower) budget = ltb budget lower

-- Why a candidate for travel is excluded.
abbrev pub is_excluded : EvidenceState → EvidenceState → Freshness → GateState → Option ℕ → ℕ → Bool
is_excluded owned installed freshness compatibility lower budget =
    is_absent owned
    || (is_present installed && is_fresh freshness)
    || is_fail compatibility
    || exceeds lower budget

-- A candidate that the constructor accepts has both bounds or none, the lower one first.
check_travel-check_interval :
    (is_printable : Char → Bool) (c : TravelCandidate)
    → check_travel is_printable c ≡ none
    → check_interval c.storage_lower_bytes c.storage_upper_bytes ≡ none
unfolding check_travel
check_travel-check_interval is_printable c h = ground arith

storage_fit_gate-exceeds :
    (c : TravelCandidate) (budget : ℕ)
    → check_interval c.storage_lower_bytes c.storage_upper_bytes ≡ none
    → is_fail (storage_fit_gate c budget).state ≡ exceeds c.storage_lower_bytes budget
unfolding check_interval storage_fit_gate
storage_fit_gate-exceeds c budget h = ground arith

fresh_presence_gate-is_absent :
    (e : EvidenceState) (f : Freshness) (name : String)
    → is_fail (fresh_presence_gate e f name).state ≡ is_absent e
unfolding fresh_presence_gate
fresh_presence_gate-is_absent e f name = ground arith

absence_gate-is_present :
    (e : EvidenceState) (f : Freshness)
    → is_fail (absence_gate e f).state ≡ (is_present e && is_fresh f)
unfolding absence_gate
absence_gate-is_present e f = ground arith

compatibility_gate-is_fail : (g : GateState) → is_fail (compatibility_gate g).state ≡ is_fail g
unfolding compatibility_gate
compatibility_gate-is_fail g = ground arith

-- A candidate that its constructor accepts is excluded exactly for one of four reasons: it is observed
-- absent from the library's owner, it is freshly observed installed, it is known to be incompatible,
-- or not even the lower bound of its storage fits the budget. It is conditional otherwise.
pub travel_item-is_excluded :
    (is_printable : Char → Bool) (budget : ℕ) (c : TravelCandidate)
    → check_travel is_printable c ≡ none
    → (travel_item budget c).eligibility ≡ (
        if is_excluded c.ownership c.installed c.installed_freshness c.compatibility
          c.storage_lower_bytes budget
        then excluded
        else conditional)
unfolding travel_item
travel_item-is_excluded is_printable budget c h = ground (
  arith,
  fresh_presence_gate-is_absent c.ownership c.ownership_freshness "visible_owned",
  absence_gate-is_present c.installed c.installed_freshness,
  compatibility_gate-is_fail c.compatibility,
  storage_fit_gate-exceeds c budget (check_travel-check_interval is_printable c h),
)
