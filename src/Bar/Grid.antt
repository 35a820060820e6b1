-- ===== src/Bar/Grid.antt =====
-- Rounding of a time to the bar grid.
use atrade.Prelude.{ℕ, ◌+◌, ◌%◌, ◌≤◌, ◌<◌, ◌≡◌, arith}
use atrade.Bar.{
  BarPeriod, one_minute, five_minutes, fifteen_minutes, thirty_minutes, one_hour, one_day,
  period_length, floor_to_bar_start, ceil_to_bar_start,
}

-- `b` is the start of a bar period, counted from the UNIX epoch.
abbrev pub IsBarStart : ℕ → BarPeriod → Type 0
IsBarStart b p = b % period_length p ≡ 0

-- `floor_to_bar_start` gives the bar start that is at most `t` and less than one period before it.
pub floor_to_bar_start-bounds :
    (t : ℕ) (p : BarPeriod)
    → IsBarStart (floor_to_bar_start t p) p
      × (floor_to_bar_start t p ≤ t)
      × (t < floor_to_bar_start t p + period_length p)
unfolding floor_to_bar_start
floor_to_bar_start-bounds t one_minute = omega arith
floor_to_bar_start-bounds t five_minutes = omega arith
floor_to_bar_start-bounds t fifteen_minutes = omega arith
floor_to_bar_start-bounds t thirty_minutes = omega arith
floor_to_bar_start-bounds t one_hour = omega arith
floor_to_bar_start-bounds t one_day = omega arith

-- `ceil_to_bar_start` gives the bar start that is at least `t` and less than one period after it.
pub ceil_to_bar_start-bounds :
    (t : ℕ) (p : BarPeriod)
    → IsBarStart (ceil_to_bar_start t p) p
      × (t ≤ ceil_to_bar_start t p)
      × (ceil_to_bar_start t p < t + period_length p)
unfolding ceil_to_bar_start
ceil_to_bar_start-bounds t one_minute = ground (arith, floor_to_bar_start-bounds t one_minute)
ceil_to_bar_start-bounds t five_minutes = ground (arith, floor_to_bar_start-bounds t five_minutes)
ceil_to_bar_start-bounds t fifteen_minutes =
    ground (arith, floor_to_bar_start-bounds t fifteen_minutes)
ceil_to_bar_start-bounds t thirty_minutes =
    ground (arith, floor_to_bar_start-bounds t thirty_minutes)
ceil_to_bar_start-bounds t one_hour = ground (arith, floor_to_bar_start-bounds t one_hour)
ceil_to_bar_start-bounds t one_day = ground (arith, floor_to_bar_start-bounds t one_day)
