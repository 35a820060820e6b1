-- ===== src/Ranges/Complete.antt =====
-- `limit_to_complete_bars`: the complete bars of a requested range.
use atrade.Prelude.{ℕ, ◌+◌, ◌≤◌, ◌<◌, ◌↔◌, Option, none, some, arith}
use atrade.Bar.{
  BarPeriod, one_minute, five_minutes, fifteen_minutes, thirty_minutes, one_hour, one_day,
  TimeRange, period_length,
}
use atrade.Bar.Grid.{IsBarStart, floor_to_bar_start-bounds, ceil_to_bar_start-bounds}
use atrade.Ranges.{limit_to_complete_bars}

-- The range that is read holds the whole bar that starts at `b`.
abbrev pub HoldsBar : ℕ → BarPeriod → Option TimeRange → Type 0
HoldsBar b p none = ⊥
HoldsBar b p (some q) = (q.start_utc ≤ b) × (b + period_length p ≤ q.end_utc)

-- The bar that starts at `b` meets the requested range, and it ended at or before `now`.
abbrev pub IsWanted : ℕ → BarPeriod → TimeRange → ℕ → Type 0
IsWanted b p r now =
    (b < r.end_utc) × (r.start_utc < b + period_length p) × (b + period_length p ≤ now)

-- A bar of the grid is in the range that is read exactly when it meets the requested range and is
-- complete at the current time.
pub limit_to_complete_bars-HoldsBar :
    (r : TimeRange) (p : BarPeriod) (now b : ℕ)
    → IsBarStart b p
    → HoldsBar b p (limit_to_complete_bars r p now) ↔ IsWanted b p r now
unfolding limit_to_complete_bars
limit_to_complete_bars-HoldsBar r one_minute now b h = ground (
  arith,
  floor_to_bar_start-bounds r.start_utc one_minute,
  ceil_to_bar_start-bounds r.end_utc one_minute,
  floor_to_bar_start-bounds now one_minute,
)
limit_to_complete_bars-HoldsBar r five_minutes now b h = ground (
  arith,
  floor_to_bar_start-bounds r.start_utc five_minutes,
  ceil_to_bar_start-bounds r.end_utc five_minutes,
  floor_to_bar_start-bounds now five_minutes,
)
limit_to_complete_bars-HoldsBar r fifteen_minutes now b h = ground (
  arith,
  floor_to_bar_start-bounds r.start_utc fifteen_minutes,
  ceil_to_bar_start-bounds r.end_utc fifteen_minutes,
  floor_to_bar_start-bounds now fifteen_minutes,
)
limit_to_complete_bars-HoldsBar r thirty_minutes now b h = ground (
  arith,
  floor_to_bar_start-bounds r.start_utc thirty_minutes,
  ceil_to_bar_start-bounds r.end_utc thirty_minutes,
  floor_to_bar_start-bounds now thirty_minutes,
)
limit_to_complete_bars-HoldsBar r one_hour now b h = ground (
  arith,
  floor_to_bar_start-bounds r.start_utc one_hour,
  ceil_to_bar_start-bounds r.end_utc one_hour,
  floor_to_bar_start-bounds now one_hour,
)
limit_to_complete_bars-HoldsBar r one_day now b h = ground (
  arith,
  floor_to_bar_start-bounds r.start_utc one_day,
  ceil_to_bar_start-bounds r.end_utc one_day,
  floor_to_bar_start-bounds now one_day,
)
