-- ===== src/Backtests/Store.antt =====
-- The tables of backtests and the statements that write them
-- (backend/src/atrade/backtest/backtest_store.py). A table is the list of its rows in the order of
-- their ids; a function that writes gives the new tables, and `none` stands for an exception, which
-- leaves the transaction without effect. `referred` are the backtests that a forward test refers to.
use atrade.Prelude.Tables.{update_rows}
use Prim.Native.String.{String}
use atrade.Prelude.{
  ℕ, ◌+◌, ◌==◌, Bool, true, false, ◌&&◌, ◌||◌, List, [], ◌∷◌, ◌++◌, map, any, Option, none, some,
  if◌then◌else◌, ◌>>=◌,
}
use atrade.Ledger.{Instrument}
use atrade.Backtests.{
  BacktestStatus, is_queued, is_running, UniversePeriod, EquityPoint, BacktestTrade, BacktestResult,
  ErrorMessage, BacktestRow,
}
use atrade.Backtests.Rows.{NewBacktest, currency, new_row, metrics_columns}

-- A row of `backtest_universe_member`.
pub record UniverseMember : Type 0 where
  pub backtest_id : ℕ
  pub period_start_utc : ℕ
  pub symbol : String
  pub exchange : String

-- A row of `backtest_equity_point` or of `backtest_trade`.
pub record ResultRow (A : Type 0) : Type 0 where
  pub backtest_id : ℕ
  pub value : A

-- A row of `parameter_sweep`; `grid` is the text of a JSON value.
pub record SweepRow : Type 0 where
  pub id : ℕ
  pub strategy_version_id : ℕ
  pub grid : String
  pub created_at_utc : ℕ

pub record Tables (V : Type 0) : Type 0 where
  pub rows : List (BacktestRow V)
  pub next_id : ℕ
  pub members : List UniverseMember
  pub equity_points : List (ResultRow EquityPoint)
  pub trades : List (ResultRow BacktestTrade)
  pub sweeps : List SweepRow
  pub next_sweep_id : ℕ
  pub referred : List ℕ

abbrev pub is_empty : {A : Type 0} → List A → Bool
is_empty [] = true
is_empty (x ∷ xs) = false

-- The members of the periods, in the order of the comprehension.
unfoldable pub members_of_period : ℕ → ℕ → List Instrument → List UniverseMember
members_of_period backtest_id start_utc [] = []
members_of_period backtest_id start_utc (i ∷ members) =
    record {
      backtest_id = backtest_id;
      period_start_utc = start_utc;
      symbol = i.symbol;
      exchange = i.exchange;
    }
    ∷ members_of_period backtest_id start_utc members

unfoldable pub universe_members : ℕ → List UniversePeriod → List UniverseMember
unfolding members_of_period
universe_members backtest_id [] = []
universe_members backtest_id (p ∷ periods) =
    members_of_period backtest_id p.start_utc p.members ++ universe_members backtest_id periods

-- `DELETE FROM … WHERE backtest_id = …`
unfoldable pub without_members : (ℕ → Bool) → List UniverseMember → List UniverseMember
without_members deleted [] = []
without_members deleted (m ∷ members) =
    let rest = without_members deleted members in if deleted m.backtest_id then rest else m ∷ rest

-- The primary key of `backtest_equity_point`.
abbrev pub has_point : ℕ → EquityPoint → List (ResultRow EquityPoint) → Bool
has_point backtest_id point points =
    any
      (λ (r : ResultRow EquityPoint).
        r.backtest_id == backtest_id && r.value.time_utc == point.time_utc)
      points

unfoldable pub insert_points :
    ℕ → List EquityPoint → List (ResultRow EquityPoint) → Option (List (ResultRow EquityPoint))
insert_points backtest_id [] points = some points
insert_points backtest_id (p ∷ curve) points =
    let rest =
      insert_points backtest_id curve
        (points ++ record { backtest_id = backtest_id; value = p } ∷ []) in
    if has_point backtest_id p points then none else rest

module _ {V : Type 0} where
  -- `UPDATE backtest SET … WHERE …`
  abbrev pub update_where :
      (BacktestRow V → Bool) → (BacktestRow V → BacktestRow V) → Tables V → Tables V
  update_where where_row set_row tables = record tables {
    rows = update_rows where_row set_row tables.rows;
  }

  unfoldable pub insert_backtest :
      NewBacktest V → List UniversePeriod → Tables V → Option (Tables V × ℕ)
  unfolding new_row universe_members
  insert_backtest new universe_periods tables = currency new.request >>= (λ c. some (
    record tables {
      rows = tables.rows ++ new_row tables.next_id new c ∷ [];
      next_id = tables.next_id + 1;
      members = tables.members ++ universe_members tables.next_id universe_periods;
    },
    tables.next_id,
  ))

  -- A row that refers to a backtest needs it (REFERENCES backtest).
  abbrev pub has_row : ℕ → List (BacktestRow V) → Bool
  has_row backtest_id rows = any (λ (row : BacktestRow V). row.id == backtest_id) rows

  unfoldable pub replace_universe_members : ℕ → List UniversePeriod → Tables V → Option (Tables V)
  unfolding without_members universe_members
  replace_universe_members backtest_id universe_periods tables =
      let members = universe_members backtest_id universe_periods in
      if is_empty members || has_row backtest_id tables.rows
      then some (record tables {
        members = without_members (λ id. id == backtest_id) tables.members ++ members;
      })
      else none

  unfoldable pub select_backtest : ℕ → List (BacktestRow V) → Option (BacktestRow V)
  select_backtest backtest_id [] = none
  select_backtest backtest_id (row ∷ rows) =
      if row.id == backtest_id then some row else select_backtest backtest_id rows

  -- `SELECT id … WHERE status = 'queued' ORDER BY id LIMIT 1`
  unfoldable pub oldest_queued : List (BacktestRow V) → Option ℕ
  oldest_queued [] = none
  oldest_queued (row ∷ rows) = if is_queued row.status then some row.id else oldest_queued rows

  abbrev pub start_row : ℕ → BacktestRow V → BacktestRow V
  start_row started_at_utc row = record row {
    status = BacktestStatus.running;
    started_at_utc = some started_at_utc;
  }

  unfoldable pub start_next_queued_backtest : ℕ → Tables V → Option (Tables V × ℕ)
  unfolding oldest_queued update_rows
  start_next_queued_backtest started_at_utc tables =
      oldest_queued tables.rows
      >>= (λ id. some (update_where (λ row. row.id == id) (start_row started_at_utc) tables, id))

  abbrev pub end_row : ℕ → BacktestStatus → Option ErrorMessage → BacktestRow V → BacktestRow V
  end_row ended_at_utc status error_message row = record row {
    ended_at_utc = some ended_at_utc;
    status = status;
    error_message = error_message;
  }

  unfoldable pub end_backtest : ℕ → ℕ → BacktestStatus → Option ErrorMessage → Tables V → Tables V
  unfolding update_rows
  end_backtest backtest_id ended_at_utc status_if_running error_message tables =
      update_where (λ row. row.id == backtest_id && is_running row.status)
        (end_row ended_at_utc status_if_running error_message) tables

  unfoldable pub fail_running_backtests : ℕ → ErrorMessage → Tables V → Tables V
  unfolding update_rows
  fail_running_backtests ended_at_utc error_message tables =
      update_where (λ row. is_running row.status)
        (end_row ended_at_utc BacktestStatus.failed (some error_message)) tables

  abbrev pub finish_row : ℕ → BacktestResult → BacktestRow V → BacktestRow V
  finish_row ended_at_utc result row = record row {
    status = BacktestStatus.finished;
    ended_at_utc = some ended_at_utc;
    metric_columns = metrics_columns result.metrics;
    bar_count_by_source = some result.bar_count_by_source;
    fill_warning = result.fill_warning;
  }

  -- The inserts of the results, which refer to the backtest.
  abbrev pub insert_results : ℕ → BacktestResult → Tables V → Option (List (ResultRow EquityPoint))
  insert_results backtest_id result tables =
      if is_empty result.equity_curve && is_empty result.trades || has_row backtest_id tables.rows
      then insert_points backtest_id result.equity_curve tables.equity_points
      else none

  abbrev pub with_result :
      ℕ → BacktestResult → ℕ → Tables V → List (ResultRow EquityPoint) → Tables V
  with_result backtest_id result ended_at_utc tables points = record tables {
    equity_points = points;
    trades =
        tables.trades ++ map (λ t. record { backtest_id = backtest_id; value = t }) result.trades;
    rows = update_rows (λ row. row.id == backtest_id) (finish_row ended_at_utc result) tables.rows;
  }

  unfoldable pub save_result : ℕ → BacktestResult → ℕ → Tables V → Option (Tables V)
  unfolding insert_points update_rows metrics_columns
  save_result backtest_id result ended_at_utc tables =
      insert_results backtest_id result tables
      >>= (λ points. some (with_result backtest_id result ended_at_utc tables points))

  unfoldable pub save_failure : ℕ → ErrorMessage → ℕ → Tables V → Tables V
  unfolding update_rows
  save_failure backtest_id error_message ended_at_utc tables =
      update_where (λ row. row.id == backtest_id)
        (end_row ended_at_utc BacktestStatus.failed (some error_message)) tables
