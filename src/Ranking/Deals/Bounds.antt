-- ===== src/Ranking/Deals/Bounds.antt =====
-- The numbers that src/steam_agent/deal_ranking.py reports stay in their ranges, and say what their
-- names say.
use native.Mathlib.Nat.{div-le_of_le-mul, div-mul-le_self}
use steam_cli.Prelude.{
  ℕ, ◌≤◌, ◌<◌, ◌-◌, ◌*◌, true, leb, Option, none, some, ◌≡◌, refl, arith, str_eq, Bool-cases, inl,
  inr,
}
use steam_cli.Ranking.Deals.Evidence.{Money, max_signed_64}
use steam_cli.Ranking.Deals.Signals.{
  discount_bps, distance_above_low, within_five_percent, basis_points, cap,
}

-- A part of a whole is at most 10000 basis points of it.
basis_points_bounded : (more less whole : ℕ) → more ≤ whole → basis_points more less whole ≤ 10000
basis_points_bounded more less whole k = div-le_of_le-mul whole (omega arith)

-- A discount that is reported.
pub record IsDiscount (price : Money) (regular : Option Money) (d : ℕ) : Type 0 where
  pub at_most : d ≤ 10000
  pub below :
      1 ≤ d
      → (q : Money) × (regular ≡ some q)
        × (price.amount_minor < q.amount_minor)
        × (str_eq q.currency price.currency ≡ true)
        × (str_eq q.country price.country ≡ true)
        × (d * q.amount_minor ≤ (q.amount_minor - price.amount_minor) * 10000)

IsDiscount-of_regular :
    (price q : Money) (d : ℕ) → discount_bps price (some q) ≡ some d → IsDiscount price (some q) d
unfolding discount_bps
IsDiscount-of_regular price q d h = record {
  at_most = ground (arith, basis_points_bounded q.amount_minor price.amount_minor q.amount_minor);
  below = λ positive. (
    q,
    refl,
    ground arith,
    ground arith,
    ground arith,
    ground (arith, div-mul-le_self ((q.amount_minor - price.amount_minor) * 10000) q.amount_minor),
  );
}

-- A discount is at most the whole regular price. One above 0 is below a regular price in the same
-- currency and country, by at least that many basis points of it.
pub discount_bps-IsDiscount :
    (price : Money) (regular : Option Money) (d : ℕ)
    → discount_bps price regular ≡ some d
    → IsDiscount price regular d
unfolding discount_bps
discount_bps-IsDiscount price none d h = cc
discount_bps-IsDiscount price (some q) d h = IsDiscount-of_regular price q d h

-- A price that is within five percent of a low has a distance above it, of at most 500 basis points.
pub within_five_percent-distance_above_low :
    (current low : Money)
    → within_five_percent current low ≡ true
    → (d : ℕ) × (distance_above_low current low ≡ some d) × (d ≤ 500)
unfolding within_five_percent distance_above_low
within_five_percent-distance_above_low current low h =
    elim (Bool-cases (leb current.amount_minor low.amount_minor)) [
      | inl below ↦ (0, ground arith, omega arith)
      | inr above ↦ (
        cap (basis_points current.amount_minor low.amount_minor low.amount_minor),
        ground arith,
        ground (
          arith,
          div-le_of_le-mul low.amount_minor {m = (current.amount_minor - low.amount_minor) * 10000}
              {n = 500},
        ),
      )
    ]

-- A distance is a 64-bit number.
pub distance_above_low_bounded :
    (current low : Money) (d : ℕ) → distance_above_low current low ≡ some d → d ≤ max_signed_64
unfolding distance_above_low
distance_above_low_bounded current low d h = ground arith
