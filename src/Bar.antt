-- ===== src/Bar.antt =====
-- Bars, time ranges and the bar grid (backend/src/atrade/foundation/bar.py). A `datetime` is its
-- number of microseconds since the UNIX epoch, so the times before 1970 are outside the model; a
-- `Decimal` price stays a parameter of what uses bars.
pub mod Grid
use atrade.Prelude.{ℕ, ◌+◌, ◌-◌, ◌*◌, ◌/◌, ◌%◌, if◌then◌else◌, ◌==◌}

abbrev pub seconds_per_minute : ℕ
seconds_per_minute = 60

abbrev pub seconds_per_hour : ℕ
seconds_per_hour = 60 * seconds_per_minute

abbrev pub seconds_per_day : ℕ
seconds_per_day = 24 * seconds_per_hour

pub data BarPeriod : Type 0 where
  one_minute five_minutes fifteen_minutes thirty_minutes one_hour one_day : BarPeriod

abbrev pub bar_period_seconds : BarPeriod → ℕ
bar_period_seconds BarPeriod.one_minute = seconds_per_minute
bar_period_seconds BarPeriod.five_minutes = 5 * seconds_per_minute
bar_period_seconds BarPeriod.fifteen_minutes = 15 * seconds_per_minute
bar_period_seconds BarPeriod.thirty_minutes = 30 * seconds_per_minute
bar_period_seconds BarPeriod.one_hour = seconds_per_hour
bar_period_seconds BarPeriod.one_day = seconds_per_day

-- The microseconds of one second.
abbrev pub microseconds : ℕ
microseconds = 1000000

-- `BarPeriod.length`, in microseconds.
abbrev pub period_length : BarPeriod → ℕ
period_length p = bar_period_seconds p * microseconds

-- From `start_utc` (included) to `end_utc` (not included).
pub record TimeRange : Type 0 where
  pub start_utc : ℕ
  pub end_utc : ℕ

unfoldable pub floor_to_bar_start : ℕ → BarPeriod → ℕ
floor_to_bar_start time_utc bar_period =
    let unix_seconds = time_utc / microseconds in
    (unix_seconds - unix_seconds % bar_period_seconds bar_period) * microseconds

unfoldable pub ceil_to_bar_start : ℕ → BarPeriod → ℕ
unfolding floor_to_bar_start
ceil_to_bar_start time_utc bar_period =
    let floor_start = floor_to_bar_start time_utc bar_period in
    if floor_start == time_utc then floor_start else floor_start + period_length bar_period
