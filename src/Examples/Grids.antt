-- ===== src/Examples/Grids.antt =====
-- Runs of the time ranges and of the bar grid.
use atrade.Prelude.{ℕ, ◌+◌, ◌*◌, ◌≡◌, refl, List, [], ◌∷◌, if◌then◌else◌, ◌↔◌, arith, some}
use atrade.Bar.{BarPeriod, TimeRange, floor_to_bar_start, ceil_to_bar_start, microseconds}
use atrade.Ranges.{range, find_missing_ranges, assign_source_ranges, limit_to_complete_bars}
use atrade.Ranges.Counting.{contains, count_at}
use atrade.Ranges.Missing.{count_missing, count_at-find_missing_ranges}
use atrade.Ranges.Sources.{sources_at, first_source, sources_at-assign_source_ranges}
use atrade.Ranges.Complete.{HoldsBar, IsWanted, limit_to_complete_bars-HoldsBar}

data Source : Type 0 where
  databento ibkr : Source

abbrev wanted : TimeRange
wanted = range 0 100

abbrev databento_saved : List TimeRange
databento_saved = range 10 40 ∷ range 60 70 ∷ []

abbrev ibkr_saved : List TimeRange
ibkr_saved = range 30 65 ∷ range 90 120 ∷ []

abbrev saved : List (Source × List TimeRange)
saved = (Source.databento, databento_saved) ∷ (Source.ibkr, ibkr_saved) ∷ []

missing_of_databento :
    find_missing_ranges wanted databento_saved ≡ range 0 10 ∷ range 40 60 ∷ range 70 100 ∷ []
unfolding find_missing_ranges
missing_of_databento = refl

sources_at_overlap : sources_at 35 (assign_source_ranges wanted saved) ≡ Source.databento ∷ []
unfolding assign_source_ranges
sources_at_overlap = refl

sources_at-assign_source_ranges_example :
    sources_at 50 (assign_source_ranges wanted saved)
    ≡ (if contains 50 wanted then first_source 50 saved else [])
sources_at-assign_source_ranges_example = sources_at-assign_source_ranges 50 wanted saved

count_at-find_missing_ranges_example :
    count_at 50 (find_missing_ranges wanted databento_saved)
    ≡ count_missing 50 wanted databento_saved
count_at-find_missing_ranges_example =
    count_at-find_missing_ranges 50 wanted databento_saved (omega arith) (omega arith) (omega arith)

-- 09:31:30, 09:33:10 and the bars of five minutes around them, on the first day of the epoch.
abbrev start : ℕ
start = (9 * 3600 + 31 * 60 + 30) * microseconds

abbrev end : ℕ
end = (9 * 3600 + 33 * 60 + 10) * microseconds

abbrev half_past_nine : ℕ
half_past_nine = (9 * 3600 + 30 * 60) * microseconds

abbrev now : ℕ
now = (9 * 3600 + 35 * 60) * microseconds

complete_bar_of_start :
    limit_to_complete_bars (range start end) BarPeriod.five_minutes now
    ≡ some (range half_past_nine now)
unfolding limit_to_complete_bars floor_to_bar_start ceil_to_bar_start
complete_bar_of_start = refl

limit_to_complete_bars-HoldsBar_example :
    HoldsBar half_past_nine BarPeriod.five_minutes
      (limit_to_complete_bars (range start end) BarPeriod.five_minutes now)
    ↔ IsWanted half_past_nine BarPeriod.five_minutes (range start end) now
limit_to_complete_bars-HoldsBar_example =
    limit_to_complete_bars-HoldsBar (range start end) BarPeriod.five_minutes now half_past_nine refl
