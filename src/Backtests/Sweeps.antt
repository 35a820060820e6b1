-- ===== src/Backtests/Sweeps.antt =====
-- The deletes of backtests (backend/src/atrade/backtest/backtest_store.py) and the statements of
-- parameter sweeps (parameter_sweep.py).
use atrade.Prelude.Tables.{update_rows}
use Prim.Native.String.{String}
use atrade.Prelude.{
  ℕ, ◌+◌, ◌==◌, Bool, false, ◌&&◌, List, [], ◌∷◌, ◌++◌, any, Option, none, some, if◌then◌else◌,
  ◌>>=◌,
}
use atrade.Backtests.{BacktestStatus, is_open, is_queued, UniversePeriod, BacktestRow}
use atrade.Backtests.Rows.{NewBacktest}
use atrade.Backtests.Store.{
  ResultRow, SweepRow, Tables, without_members, insert_backtest, select_backtest,
}

-- Why a delete is refused.
pub data DeleteRefusal : Type 0 where
  backtest_is_open : (backtest_id : ℕ) (status : BacktestStatus) → DeleteRefusal
  backtest_of_sweep : (backtest_id sweep_id : ℕ) → DeleteRefusal
  same_period_backtest : (backtest_id : ℕ) → DeleteRefusal
  sweep_is_open : (sweep_id : ℕ) → DeleteRefusal
  same_period_sweep : (sweep_id : ℕ) → DeleteRefusal

-- ON DELETE CASCADE of the results of a backtest.
unfoldable pub without_results : {A : Type 0} → (ℕ → Bool) → List (ResultRow A) → List (ResultRow A)
without_results deleted [] = []
without_results deleted (r ∷ results) =
    let rest = without_results deleted results in if deleted r.backtest_id then rest else r ∷ rest

-- `sweep_id = …`, which is not true for NULL.
abbrev pub is_in_sweep : ℕ → Option ℕ → Bool
is_in_sweep sweep_id none = false
is_in_sweep sweep_id (some i) = i == sweep_id

unfoldable pub without_sweep : ℕ → List SweepRow → List SweepRow
without_sweep sweep_id [] = []
without_sweep sweep_id (s ∷ sweeps) =
    let rest = without_sweep sweep_id sweeps in if s.id == sweep_id then rest else s ∷ rest

module _ {V : Type 0} where
  unfoldable pub without_rows : (BacktestRow V → Bool) → List (BacktestRow V) → List (BacktestRow V)
  without_rows deleted [] = []
  without_rows deleted (row ∷ rows) =
      let rest = without_rows deleted rows in if deleted row then rest else row ∷ rest

  -- The ids of the rows of a delete.
  unfoldable pub has_deleted_id : (BacktestRow V → Bool) → List (BacktestRow V) → ℕ → Bool
  has_deleted_id deleted rows id = any (λ (row : BacktestRow V). deleted row && row.id == id) rows

  -- `DELETE FROM backtest WHERE …`. `none`: a forward test refers to a row (ON DELETE RESTRICT).
  unfoldable pub delete_rows : (BacktestRow V → Bool) → Tables V → Option (Tables V)
  unfolding without_rows has_deleted_id without_members without_results
  delete_rows deleted tables =
      let deleted_id = has_deleted_id deleted tables.rows in
      if any deleted_id tables.referred
      then none
      else some (record tables {
        rows = without_rows deleted tables.rows;
        members = without_members deleted_id tables.members;
        equity_points = without_results deleted_id tables.equity_points;
        trades = without_results deleted_id tables.trades;
      })

  -- The new tables, and the reason of a refusal.
  abbrev pub deleted_or :
      DeleteRefusal → Tables V → Option (Tables V) → Tables V × Option DeleteRefusal
  deleted_or refusal tables none = (tables, some refusal)
  deleted_or refusal tables (some after) = (after, none)

  unfoldable pub delete_found :
      ℕ → BacktestStatus → Option ℕ → Tables V → Tables V × Option DeleteRefusal
  unfolding delete_rows
  delete_found backtest_id status (some sweep_id) tables =
      if is_open status
      then (tables, some (backtest_is_open backtest_id status))
      else (tables, some (backtest_of_sweep backtest_id sweep_id))
  delete_found backtest_id status none tables =
      if is_open status
      then (tables, some (backtest_is_open backtest_id status))
      else deleted_or (same_period_backtest backtest_id) tables
          (delete_rows (λ row. row.id == backtest_id) tables)

  -- With the row that the id selects.
  abbrev pub delete_selected :
      ℕ → Option (BacktestRow V) → Tables V → Tables V × Option DeleteRefusal
  delete_selected backtest_id none tables = (tables, none)
  delete_selected backtest_id (some row) tables =
      delete_found backtest_id row.status row.sweep_id tables

  unfoldable pub delete_backtest : ℕ → Tables V → Tables V × Option DeleteRefusal
  unfolding select_backtest delete_found
  delete_backtest backtest_id tables =
      delete_selected backtest_id (select_backtest backtest_id tables.rows) tables

  -- `replace(request, parameters=combination)`
  abbrev pub with_parameters : NewBacktest V → V → NewBacktest V
  with_parameters new combination = record new {
    request = record new.request { parameters = some combination };
  }

  unfoldable pub insert_runs :
      NewBacktest V → List UniversePeriod → List V → Tables V → Option (Tables V)
  unfolding insert_backtest
  insert_runs new universe_periods [] tables = some tables
  insert_runs new universe_periods (combination ∷ combinations) tables =
      insert_backtest (with_parameters new combination) universe_periods tables
      >>= (λ inserted. insert_runs new universe_periods combinations inserted.0)

  -- `INSERT INTO parameter_sweep`
  abbrev pub add_sweep : NewBacktest V → String → Tables V → Tables V
  add_sweep new grid tables =
      let sweep : SweepRow = record {
        id = tables.next_sweep_id;
        strategy_version_id = new.request.strategy_version_id;
        grid = grid;
        created_at_utc = new.created_at_utc;
      } in
      record tables {
        sweeps = tables.sweeps ++ sweep ∷ [];
        next_sweep_id = tables.next_sweep_id + 1;
      }

  -- `new` has the arguments that are the same for all runs; its sweep is the one that is added.
  unfoldable pub insert_sweep :
      NewBacktest V → String → List V → List UniversePeriod → Tables V → Option (Tables V × ℕ)
  unfolding insert_runs
  insert_sweep new grid combinations universe_periods tables =
      let sweep_id = tables.next_sweep_id in
      insert_runs (record new { sweep_id = some sweep_id }) universe_periods combinations
        (add_sweep new grid tables)
      >>= (λ after. some (after, sweep_id))

  unfoldable pub select_sweep_runs : ℕ → List (BacktestRow V) → List (BacktestRow V)
  select_sweep_runs sweep_id [] = []
  select_sweep_runs sweep_id (row ∷ rows) =
      let rest = select_sweep_runs sweep_id rows in
      if is_in_sweep sweep_id row.sweep_id then row ∷ rest else rest

  abbrev pub cancel_row : ℕ → BacktestRow V → BacktestRow V
  cancel_row ended_at_utc row = record row {
    status = BacktestStatus.cancelled;
    ended_at_utc = some ended_at_utc;
  }

  unfoldable pub cancel_queued_runs : ℕ → ℕ → Tables V → Tables V
  unfolding update_rows
  cancel_queued_runs sweep_id ended_at_utc tables = record tables {
    rows =
        update_rows (λ row. is_in_sweep sweep_id row.sweep_id && is_queued row.status)
          (cancel_row ended_at_utc) tables.rows;
  }

  abbrev pub has_open_run : ℕ → List (BacktestRow V) → Bool
  has_open_run sweep_id rows =
      any (λ (row : BacktestRow V). is_in_sweep sweep_id row.sweep_id && is_open row.status) rows

  -- After the delete of the runs, the row of the sweep.
  abbrev pub delete_sweep_row : ℕ → Tables V → Option (Tables V) → Tables V × Option DeleteRefusal
  delete_sweep_row sweep_id tables none = (tables, some (same_period_sweep sweep_id))
  delete_sweep_row sweep_id tables (some after) =
      (record after { sweeps = without_sweep sweep_id after.sweeps }, none)

  unfoldable pub delete_sweep : ℕ → Tables V → Tables V × Option DeleteRefusal
  unfolding delete_rows without_sweep
  delete_sweep sweep_id tables =
      if has_open_run sweep_id tables.rows
      then (tables, some (sweep_is_open sweep_id))
      else delete_sweep_row sweep_id tables
          (delete_rows (λ row. is_in_sweep sweep_id row.sweep_id) tables)
