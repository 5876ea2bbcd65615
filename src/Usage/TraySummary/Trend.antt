-- ===== src/Usage/TraySummary/Trend.antt =====
-- The trend of a model's tokens since yesterday.
use Prim.Native.Nat.{compare}
use native.Mathlib.Nat.{div-add-mod', mod-lt}
use burnly.Prelude.{
  ℕ, ◌+◌, ◌*◌, ◌/◌, ◌≤◌, ◌<◌, ◌≡◌, refl, ◌⊎◌, inl, inr, Bool, true, false, Option, none, some, min,
  u32_max, u64_max, saturating_mul, ◌==◌, ==_iff, arith, if◌then◌else◌,
}
use burnly.Usage.TraySummary.{
  TraySummaryTrend, TraySummaryTrendDirection, increased, decreased, flat, direction_of, abs_diff,
  trend,
}

abbrev pub IsDirection : ℕ → ℕ → TraySummaryTrendDirection → Type 0
IsDirection today yesterday increased = yesterday < today
IsDirection today yesterday decreased = today < yesterday
IsDirection today yesterday flat = today ≡ yesterday

-- The quotient of the change in ten-thousandths of yesterday's tokens, rounded down.
abbrev pub IsShare : ℕ → ℕ → ℕ → Type 0
IsShare change yesterday share =
    (share * yesterday ≤ change * 10000) × (change * 10000 < share * yesterday + yesterday)

abbrev pub IsDistance : ℕ → ℕ → ℕ → Type 0
IsDistance today yesterday change = (today ≡ yesterday + change) ⊎ (yesterday ≡ today + change)

-- A trend is missing when there was nothing yesterday and there is something today. Else it has the
-- direction of the change, and is flat with no points when both days have nothing, or it has the
-- share of the change in yesterday's tokens, up to the largest `u32`.
abbrev pub IsTrend : ℕ → ℕ → Option TraySummaryTrend → Type 0
IsTrend today yesterday none = (yesterday ≡ 0) × (0 < today)
IsTrend today yesterday (some t) =
    IsDirection today yesterday t.direction
    × (((yesterday ≡ 0) × (today ≡ 0) × (t.basis_points ≡ 0))
        ⊎ ((change share : ℕ) × (0 < yesterday)
            × IsDistance today yesterday change
            × IsShare change yesterday share
            × (t.basis_points ≡ min share u32_max)))

abs_diff-IsDistance : (today yesterday : ℕ) → IsDistance today yesterday (abs_diff today yesterday)
abs_diff-IsDistance today yesterday = omega arith

direction_of-IsDirection :
    (today yesterday : ℕ) → IsDirection today yesterday (direction_of (compare today yesterday))
direction_of-IsDirection today yesterday = ground arith

quotient-IsShare :
    (change yesterday : ℕ) → 0 < yesterday → IsShare change yesterday (change * 10000 / yesterday)
quotient-IsShare change yesterday h = (
  omega (arith, div-add-mod' (change * 10000) yesterday),
  omega (arith, div-add-mod' (change * 10000) yesterday, mod-lt (change * 10000) h),
)

saturating_mul-exact : (a b : ℕ) → a * b ≤ u64_max → saturating_mul a b ≡ a * b
unfolding saturating_mul
saturating_mul-exact a b h = ground arith

positive : (n : ℕ) → (n == 0) ≡ false → 0 < n
positive n e = ground arith

start_direction :
    (today : ℕ) (b : Bool)
    → (today == 0) ≡ b
    → IsTrend today 0 (if b then some (record { direction = flat; basis_points = 0 }) else none)
start_direction today true e = ((==_iff today 0).0 e, inl (refl, (==_iff today 0).0 e, refl))
start_direction today false e = (refl, positive today e)

IsTrend-since :
    (today yesterday : ℕ) (b : Bool)
    → (yesterday == 0) ≡ b
    → abs_diff today yesterday * 10000 ≤ u64_max
    → IsTrend today yesterday (
        if b
        then (if today == 0 then some (record { direction = flat; basis_points = 0 }) else none)
        else some (record {
          direction = direction_of (compare today yesterday);
          basis_points = min (saturating_mul (abs_diff today yesterday) 10000 / yesterday) u32_max;
        }))
IsTrend-since today yesterday true e h =
    rw ((==_iff yesterday 0).0 e) (start_direction today (today == 0) refl)
IsTrend-since today yesterday false e h = (
  direction_of-IsDirection today yesterday,
  inr (
    abs_diff today yesterday,
    abs_diff today yesterday * 10000 / yesterday,
    positive yesterday e,
    abs_diff-IsDistance today yesterday,
    quotient-IsShare (abs_diff today yesterday) yesterday (positive yesterday e),
    rw (saturating_mul-exact (abs_diff today yesterday) 10000 h) refl,
  ),
)

-- When ten thousand times the change fits in a `u64`, the trend is missing exactly when there was
-- nothing yesterday and there is something today. Else it has the direction of the change, and its
-- basis points are the quotient of ten thousand times the change and yesterday's tokens, rounded
-- down and up to the largest `u32`, or 0 when both days have nothing.
pub trend-IsTrend :
    (today yesterday : ℕ)
    → abs_diff today yesterday * 10000 ≤ u64_max
    → IsTrend today yesterday (trend today yesterday)
unfolding trend
trend-IsTrend today yesterday h = IsTrend-since today yesterday (yesterday == 0) refl h
