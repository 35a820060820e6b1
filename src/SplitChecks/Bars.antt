-- ===== src/SplitChecks/Bars.antt =====
-- The change of the stored bars at a stock split
-- (backend/src/atrade/market_data/stock_split_change.py). The summaries of the daily bars, which are
-- calculated from the bars, are not in the tables.
use atrade.Prelude.{
  ℕ, ◌+◌, ◌==◌, ltb, Bool, true, false, ◌&&◌, List, [], ◌∷◌, Option, none, some, if◌then◌else◌,
}
use atrade.Prelude.Int.{ℤ}
use atrade.Ledger.{Instrument, Decimals, same_instrument}
use atrade.Ledger.Table.{Table}
use atrade.SplitChecks.{CheckTable}

pub data SplitConfirmation : Type 0 where
  both_evidences bar_evidence user_apply : SplitConfirmation

pub data StockSplitSource : Type 0 where
  ibkr_evidence databento_import : StockSplitSource

-- A row of `stock_split`. Its confirmation is one from IBKR evidence or one of the import check.
pub data StoredConfirmation : Type 0 where
  from_ibkr : SplitConfirmation → StoredConfirmation
  import_check import_rejected : StoredConfirmation

pub record StockSplit : Type 0 where
  pub id : ℕ
  pub instrument : Instrument
  pub ex_date_utc : ℕ
  pub split_ratio : ℤ
  pub source : StockSplitSource
  pub confirmation : Option StoredConfirmation
  pub recorded_at_utc : ℕ

pub record StoredBar : Type 0 where
  pub instrument : Instrument
  pub start_utc : ℕ
  pub open_price : ℤ
  pub high : ℤ
  pub low : ℤ
  pub close : ℤ
  pub volume : ℤ

pub record SplitTables : Type 0 where
  pub stock_splits : List StockSplit
  pub next_split_id : ℕ
  pub ibkr_bars : List StoredBar
  pub databento_bars : List StoredBar
  pub ledger : Table
  pub check_table : CheckTable

pub record StockSplitChange : Type 0 where
  pub instrument : Instrument
  pub ex_date_utc : ℕ
  pub split_ratio : ℤ

-- Why an operation does not end: the exceptions of the code.
pub data SplitError : Type 0 where
  stock_split_confirmed split_check_not_found split_check_resolved gateway_request : SplitError

pub data Attempt (A : Type 0) : Type 0 where
  raised : SplitError → Attempt A
  done : A → Attempt A

abbrev pub and_then : {A B : Type 0} → Attempt A → (A → Attempt B) → Attempt B
and_then (raised e) f = raised e
and_then (done a) f = f a

-- The column of the conflict.
unfoldable pub is_split_of : StockSplitChange → StockSplit → Bool
unfolding same_instrument
is_split_of change split =
    same_instrument split.instrument change.instrument && split.ex_date_utc == change.ex_date_utc

-- `stock_split.confirmation IS NULL AND stock_split.source = 'ibkr_evidence'`
abbrev pub is_candidate : StockSplitSource → Option StoredConfirmation → Bool
is_candidate ibkr_evidence none = true
is_candidate ibkr_evidence (some c) = false
is_candidate databento_import confirmation = false

abbrev pub confirm_split : StockSplitChange → SplitConfirmation → ℕ → StockSplit → StockSplit
confirm_split change confirmation recorded_at_utc split = record split {
  split_ratio = change.split_ratio;
  confirmation = some (from_ibkr confirmation);
  recorded_at_utc = recorded_at_utc;
}

-- The rows after the statement and the id that it returns; `none`: it returns no row.
abbrev pub keep_first : StockSplit → Option (List StockSplit × ℕ) → Option (List StockSplit × ℕ)
keep_first split none = none
keep_first split (some (splits, id)) = some (split ∷ splits, id)

abbrev pub new_split : StockSplitChange → SplitConfirmation → ℕ → ℕ → StockSplit
new_split change confirmation recorded_at_utc id = record {
  id = id;
  instrument = change.instrument;
  ex_date_utc = change.ex_date_utc;
  split_ratio = change.split_ratio;
  source = ibkr_evidence;
  confirmation = some (from_ibkr confirmation);
  recorded_at_utc = recorded_at_utc;
}

unfoldable pub write_split_row :
    StockSplitChange → SplitConfirmation → ℕ → ℕ → List StockSplit → Option (List StockSplit × ℕ)
unfolding is_split_of
write_split_row change confirmation recorded_at_utc next_id [] =
    some (new_split change confirmation recorded_at_utc next_id ∷ [], next_id)
write_split_row change confirmation recorded_at_utc next_id (split ∷ splits) =
    let rest = write_split_row change confirmation recorded_at_utc next_id splits in
    if is_split_of change split
    then if is_candidate split.source split.confirmation
      then some (confirm_split change confirmation recorded_at_utc split ∷ splits, split.id)
      else none
    else keep_first split rest

-- `CHANGE_BARS_TEMPLATE` for one bar table.
unfoldable pub change_bars : Decimals → StockSplitChange → List StoredBar → List StoredBar
unfolding same_instrument
change_bars decimals change [] = []
change_bars decimals change (bar ∷ bars) =
    let rest = change_bars decimals change bars in
    if same_instrument bar.instrument change.instrument && ltb bar.start_utc change.ex_date_utc
    then (record bar {
      open_price = decimals.divide bar.open_price change.split_ratio;
      high = decimals.divide bar.high change.split_ratio;
      low = decimals.divide bar.low change.split_ratio;
      close = decimals.divide bar.close change.split_ratio;
      volume = decimals.multiply bar.volume change.split_ratio;
    })
      ∷ rest
    else bar ∷ rest

-- The bars change in the bar tables of all bar sources. Each insert takes an id, also one that updates.
abbrev pub change_stored_bars :
    Decimals
    → StockSplitChange
    → SplitTables
    → Option (List StockSplit × ℕ)
    → Attempt (SplitTables × ℕ)
change_stored_bars decimals change tables none = raised stock_split_confirmed
change_stored_bars decimals change tables (some (splits, id)) = done (
  record tables {
    stock_splits = splits;
    next_split_id = tables.next_split_id + 1;
    ibkr_bars = change_bars decimals change tables.ibkr_bars;
    databento_bars = change_bars decimals change tables.databento_bars;
  },
  id,
)

unfoldable pub apply_stock_split_in_transaction :
    Decimals → StockSplitChange → SplitConfirmation → ℕ → SplitTables → Attempt (SplitTables × ℕ)
unfolding write_split_row change_bars
apply_stock_split_in_transaction decimals change confirmation recorded_at_utc tables =
    change_stored_bars decimals change tables
      (write_split_row change confirmation recorded_at_utc tables.next_split_id tables.stock_splits)
