-- ===== src/Ranges.antt =====
-- The range arithmetic of the bar reader (backend/src/atrade/market_data/bar_reading.py): the parts
-- of a requested range that are not saved, the cut to whole bars, and the merge of the bar sources.
pub mod Counting
pub mod Missing
pub mod Sources
pub mod Complete
use atrade.Prelude.{
  ℕ, List, [], ◌∷◌, ◌++◌, Option, none, some, map, min, max, ltb, leb, if◌then◌else◌,
}
use atrade.Bar.{BarPeriod, TimeRange, floor_to_bar_start, ceil_to_bar_start}

abbrev pub range : ℕ → ℕ → TimeRange
range s e = record { start_utc = s; end_utc = e }

-- `if saved_range.start_utc > cursor_utc: missing_ranges.append(…)`
pub append_gap : ℕ → ℕ → TimeRange → List TimeRange → List TimeRange
append_gap end_utc cursor_utc saved_range missing_ranges =
    if ltb cursor_utc saved_range.start_utc
    then missing_ranges ++ range cursor_utc (min saved_range.start_utc end_utc) ∷ []
    else missing_ranges

-- The loop of `find_missing_ranges`, from one saved range on.
pub missing_from : ℕ → List TimeRange → ℕ → List TimeRange → List TimeRange
missing_from end_utc [] cursor_utc missing_ranges = missing_ranges ++ range cursor_utc end_utc ∷ []
missing_from end_utc (saved_range ∷ saved_ranges) cursor_utc missing_ranges =
    let missing_ranges' = append_gap end_utc cursor_utc saved_range missing_ranges in
    let cursor_utc' = max cursor_utc saved_range.end_utc in
    let rest = missing_from end_utc saved_ranges cursor_utc' missing_ranges' in
    if leb end_utc cursor_utc' then missing_ranges' else rest

unfoldable pub find_missing_ranges : TimeRange → List TimeRange → List TimeRange
unfolding missing_from append_gap
find_missing_ranges time_range saved_ranges =
    missing_from time_range.end_utc saved_ranges time_range.start_utc []

unfoldable pub limit_to_complete_bars : TimeRange → BarPeriod → ℕ → Option TimeRange
limit_to_complete_bars time_range bar_period now_utc =
    let start_utc = floor_to_bar_start time_range.start_utc bar_period in
    let end_utc =
      min (ceil_to_bar_start time_range.end_utc bar_period)
        (floor_to_bar_start now_utc bar_period) in
    if leb end_utc start_utc then none else some (range start_utc end_utc)

-- A part of a requested range and the bar source that gives all bars of the part.
pub record SourceRange (S : Type 0) : Type 0 where
  pub bar_source : S
  pub time_range : TimeRange

-- `sorted(…, key=start_utc)`: a stable sort.
pub insert_by_start : TimeRange → List TimeRange → List TimeRange
insert_by_start r [] = r ∷ []
insert_by_start r (s ∷ rs) =
    if leb r.start_utc s.start_utc then r ∷ s ∷ rs else s ∷ insert_by_start r rs

pub sort_by_start : List TimeRange → List TimeRange
sort_by_start [] = []
sort_by_start (r ∷ rs) = insert_by_start r (sort_by_start rs)

-- What the two loops of `assign_source_ranges` change: `source_ranges` and `covered_ranges`.
abbrev pub Assigned : Type 0 → Type 0
Assigned S = List (SourceRange S) × List TimeRange

-- The part of a saved range inside the requested range.
abbrev pub clip : TimeRange → TimeRange → TimeRange
clip time_range saved_range =
    range (max saved_range.start_utc time_range.start_utc)
      (min saved_range.end_utc time_range.end_utc)

module _ {S : Type 0} where
  abbrev pub from_source : S → TimeRange → SourceRange S
  from_source bar_source new_range = record { bar_source = bar_source; time_range = new_range }

  -- One round of the inner loop.
  pub assign_range : TimeRange → S → TimeRange → Assigned S → Assigned S
  assign_range time_range bar_source saved_range (source_ranges, covered_ranges) =
      let clipped = clip time_range saved_range in
      let new_ranges = find_missing_ranges clipped covered_ranges in
      if leb clipped.end_utc clipped.start_utc then (source_ranges, covered_ranges) else (
        source_ranges ++ map (from_source bar_source) new_ranges,
        sort_by_start (covered_ranges ++ new_ranges),
      )

  pub assign_ranges : TimeRange → S → List TimeRange → Assigned S → Assigned S
  assign_ranges time_range bar_source [] state = state
  assign_ranges time_range bar_source (saved_range ∷ saved_ranges) state =
      assign_ranges time_range bar_source saved_ranges
        (assign_range time_range bar_source saved_range state)

  pub assign_sources : TimeRange → List (S × List TimeRange) → Assigned S → Assigned S
  assign_sources time_range [] state = state
  assign_sources time_range ((bar_source, saved_ranges) ∷ sources) state =
      assign_sources time_range sources (assign_ranges time_range bar_source saved_ranges state)

  unfoldable pub assign_source_ranges : TimeRange → List (S × List TimeRange) → List (SourceRange S)
  unfolding assign_sources assign_ranges assign_range find_missing_ranges sort_by_start
      insert_by_start
  assign_source_ranges time_range saved_ranges_by_source =
      (assign_sources time_range saved_ranges_by_source ([], [])).0
