-- ===== src/SplitChecks/Evidence.antt =====
-- Evidence A of a stock split, from the bars
-- (backend/src/atrade/market_data/stock_split_evidence.py), with the ratio of
-- backend/src/atrade/market_data/stock_split_detection.py. A bar has the instrument that it is read for.
use atrade.Prelude.{
  ℕ, zero, suc, ◌+◌, ◌*◌, ◌-◌, ◌==◌, ltb, leb, Bool, true, false, ◌&&◌, ◌||◌, List, [], ◌∷◌, ◌++◌,
  any, Option, none, some, if◌then◌else◌,
}
use atrade.Prelude.Int.{ℤ, pos, ◌-ℤ◌, magnitude, ltb_ℤ, leb_ℤ}
use atrade.Ledger.{Instrument, Decimals, same_instrument}
use atrade.SplitChecks.Bars.{
  SplitTables, StockSplit, StockSplitSource, StoredConfirmation, StoredBar, StockSplitChange,
  is_split_of, is_candidate,
}
use atrade.SplitChecks.Checks.{StockSplitCandidate}

-- Python's fractions above 0, a numerator and a denominator: the fraction of a decimal,
-- `limit_denominator`, and the decimal of a whole number.
pub record Fractions : Type 0 where
  pub of_decimal : ℤ → ℕ × ℕ
  pub limit_denominator : ℕ × ℕ → ℕ → ℕ × ℕ
  pub of_int : ℕ → ℤ

abbrev distance : ℕ → ℕ → ℕ
distance a b = a - b + (b - a)

-- `ratio > 0 and abs(ratio / exact_ratio - 1) <= SPLIT_RATIO_TOLERANCE`, which is 2 / 100: multiplied
-- by all denominators.
abbrev pub is_near_fraction : ℕ × ℕ → ℕ × ℕ → Bool
is_near_fraction (n, d) (exact_n, exact_d) =
    ltb 0 n && leb (100 * distance (n * exact_d) (exact_n * d)) (2 * (exact_n * d))

abbrev pub max_split_ratio_denominator : ℕ
max_split_ratio_denominator = 50

-- The loop over `max_denominator`, for the next `count` denominators.
unfoldable pub find_near : Fractions → ℕ × ℕ → ℕ → ℕ → ℕ × ℕ
find_near fractions exact zero max_denominator =
    fractions.limit_denominator exact max_split_ratio_denominator
find_near fractions exact (suc count) max_denominator =
    let ratio = fractions.limit_denominator exact max_denominator in
    let rest = find_near fractions exact count (max_denominator + 1) in
    if is_near_fraction ratio exact then ratio else rest

abbrev pub invert : ℕ × ℕ → ℕ × ℕ
invert (n, d) = (d, n)

-- `1 / raw_ratio` of a ratio below 1 is at least 1, so the recursion is one call deep.
unfoldable pub find_split_ratio : Decimals → Fractions → ℤ → ℕ × ℕ
unfolding find_near
find_split_ratio decimals fractions raw_ratio =
    let one = fractions.of_int 1 in
    let inverse = decimals.divide one raw_ratio in
    if ltb_ℤ raw_ratio one
    then invert (find_near fractions (fractions.of_decimal inverse) max_split_ratio_denominator 1)
    else find_near fractions (fractions.of_decimal raw_ratio) max_split_ratio_denominator 1

abbrev pub to_decimal : Decimals → Fractions → ℕ × ℕ → ℤ
to_decimal decimals fractions (n, d) = decimals.divide (fractions.of_int n) (fractions.of_int d)

-- `abs(raw_ratio - 1) <= MIN_EVIDENCE_STEP`, which is 8 / 100.
abbrev pub is_small_step : Fractions → ℤ → Bool
is_small_step fractions raw_ratio =
    leb (100 * magnitude (raw_ratio -ℤ fractions.of_int 1)) (8 * magnitude (fractions.of_int 1))

unfoldable pub find_evidence_ratio : Decimals → Fractions → ℤ → ℤ → Option ℤ
unfolding find_split_ratio
find_evidence_ratio decimals fractions stored_close ibkr_close =
    let raw_ratio = decimals.divide stored_close ibkr_close in
    if leb_ℤ stored_close (pos 0) || leb_ℤ ibkr_close (pos 0) || is_small_step fractions raw_ratio
    then none
    else some (to_decimal decimals fractions (find_split_ratio decimals fractions raw_ratio))

abbrev pub is_waiting : Option StoredConfirmation → Bool
is_waiting none = true
is_waiting (some c) = false

-- The ex-dates and the ratios.
unfoldable pub select_waiting_splits : Instrument → List StockSplit → List (ℕ × ℤ)
unfolding same_instrument
select_waiting_splits instrument [] = []
select_waiting_splits instrument (split ∷ splits) =
    let rest = select_waiting_splits instrument splits in
    if is_waiting split.confirmation && same_instrument split.instrument instrument
    then (split.ex_date_utc, split.split_ratio) ∷ rest
    else rest

abbrev pub candidate_row : StockSplitChange → ℕ → ℕ → StockSplit
candidate_row change recorded_at_utc id = record {
  id = id;
  instrument = change.instrument;
  ex_date_utc = change.ex_date_utc;
  split_ratio = change.split_ratio;
  source = StockSplitSource.ibkr_evidence;
  confirmation = none;
  recorded_at_utc = recorded_at_utc;
}

-- `INSERT_CANDIDATE`. The insert takes an id, also when it does nothing.
unfoldable pub insert_candidate : StockSplitChange → ℕ → SplitTables → SplitTables
unfolding is_split_of
insert_candidate change recorded_at_utc tables = record tables {
  stock_splits =
      if any (is_split_of change) tables.stock_splits
      then tables.stock_splits
      else tables.stock_splits ++ candidate_row change recorded_at_utc tables.next_split_id ∷ [];
  next_split_id = tables.next_split_id + 1;
}

-- In microseconds.
abbrev pub one_day : ℕ
one_day = 86400000000

unfoldable pub find_bar_at : ℕ → List StoredBar → Option StoredBar
find_bar_at start_utc [] = none
find_bar_at start_utc (bar ∷ bars) =
    if bar.start_utc == start_utc then some bar else find_bar_at start_utc bars

-- With the ratio of the 2 closes.
abbrev pub record_ratio : Instrument → StoredBar → ℕ → SplitTables → Option ℤ → SplitTables
record_ratio instrument stored_bar recorded_at_utc tables none = tables
record_ratio instrument stored_bar recorded_at_utc tables (some split_ratio) =
    if any (λ (split : ℕ × ℤ). ltb stored_bar.start_utc split.0)
      (select_waiting_splits instrument tables.stock_splits)
    then tables
    else insert_candidate
        (record {
          instrument = instrument;
          ex_date_utc = stored_bar.start_utc + one_day;
          split_ratio = split_ratio;
        })
        recorded_at_utc tables

abbrev pub ratio_at : Decimals → Fractions → StoredBar → Option StoredBar → Option ℤ
ratio_at decimals fractions stored_bar none = none
ratio_at decimals fractions stored_bar (some ibkr_bar) =
    find_evidence_ratio decimals fractions stored_bar.close ibkr_bar.close

unfoldable pub record_evidence :
    Decimals → Fractions → Instrument → StoredBar → List StoredBar → ℕ → SplitTables → SplitTables
unfolding select_waiting_splits insert_candidate find_bar_at find_evidence_ratio
record_evidence decimals fractions instrument stored_bar ibkr_bars recorded_at_utc tables =
    record_ratio instrument stored_bar recorded_at_utc tables
      (ratio_at decimals fractions stored_bar (find_bar_at stored_bar.start_utc ibkr_bars))

-- To the old prices, for the ex-dates after the bar.
unfoldable pub convert_bar : Decimals → List (ℕ × ℤ) → StoredBar → StoredBar
convert_bar decimals [] bar = bar
convert_bar decimals ((ex_date_utc, split_ratio) ∷ candidates) bar =
    convert_bar decimals candidates (
      if ltb bar.start_utc ex_date_utc
      then record bar {
        open_price = decimals.multiply bar.open_price split_ratio;
        high = decimals.multiply bar.high split_ratio;
        low = decimals.multiply bar.low split_ratio;
        close = decimals.multiply bar.close split_ratio;
        volume = decimals.divide bar.volume split_ratio;
      }
      else bar)

-- The order of the rows is not modelled.
unfoldable pub read_stock_split_candidates : List StockSplit → List StockSplitCandidate
read_stock_split_candidates [] = []
read_stock_split_candidates (split ∷ splits) =
    let rest = read_stock_split_candidates splits in
    if is_candidate split.source split.confirmation
    then record {
      id = split.id;
      instrument = split.instrument;
      ex_date_utc = split.ex_date_utc;
      split_ratio = split.split_ratio;
    }
      ∷ rest
    else rest
