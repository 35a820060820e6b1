-- ===== src/Backtests/Steps.antt =====
-- The steps of the backtests of a Web process: the requests of the user, the checks of the queue, the
-- writes of the children, the ends of the tasks, and a new Web process.
use atrade.Prelude.Tables.{IsOrdered}
use Prim.Native.String.{String}
use atrade.Prelude.{
  ℕ, ◌≡◌, true, List, [], ◌∷◌, ◌++◌, Option, some, if◌then◌else◌, All, length, ◌<◌,
}
use atrade.Backtests.{UniversePeriod, BacktestResult, ErrorMessage, BacktestRow}
use atrade.Backtests.Rows.{NewBacktest}
use atrade.Backtests.Store.{
  Tables, start_next_queued_backtest, insert_backtest, replace_universe_members, save_result,
  save_failure,
}
use atrade.Backtests.Sweeps.{insert_sweep, cancel_queued_runs, delete_backtest, delete_sweep}
use atrade.Backtests.Runner.{
  BacktestLimits, Runner, ChildEnd, EndWrite, is_not_written, start_child, start_queued_backtests,
  run_child_end, restart,
}
use atrade.Backtests.Lifecycle.{is_child, IsRowOk, row_id}

abbrev pub with_tables : {V : Type 0} → Runner V → Tables V → Runner V
with_tables r tables = record r { tables = tables }

-- A Web process, and the backtests that it left in the status "running" with no task: the answer of their
-- start was lost after the commit (docs/architecture/backtest.md, 10.3), or no write of their end
-- answered.
pub record Process (V : Type 0) : Type 0 where
  pub runner : Runner V
  pub left : List ℕ

abbrev pub set_tables : {V : Type 0} → Process V → Tables V → Process V
set_tables p tables = record p { runner = with_tables p.runner tables }

-- A child writes while its task runs. `start_round` is a round of a check of the queue that has not ended,
-- and `lose_start` a start whose answer is lost: the check tries again later.
pub data Step {V : Type 0} : Process V → Process V → Type 0 where
  start_backtest :
      (p : Process V) (new : NewBacktest V) (periods : List UniversePeriod) (after : Tables V)
      (id : ℕ)
      → insert_backtest new periods p.runner.tables ≡ some (after, id)
      → Step p (set_tables p after)
  start_sweep :
      (p : Process V) (new : NewBacktest V) (grid : String) (combinations : List V)
      (periods : List UniversePeriod) (after : Tables V) (sweep_id : ℕ)
      → insert_sweep new grid combinations periods p.runner.tables ≡ some (after, sweep_id)
      → Step p (set_tables p after)
  cancel_sweep :
      (p : Process V) (sweep_id now : ℕ)
      → Step p (set_tables p (cancel_queued_runs sweep_id now p.runner.tables))
  delete_one :
      (p : Process V) (id : ℕ) → Step p (set_tables p (delete_backtest id p.runner.tables).0)
  delete_runs :
      (p : Process V) (sweep_id : ℕ)
      → Step p (set_tables p (delete_sweep sweep_id p.runner.tables).0)
  check_queue :
      (p : Process V) (saved : Option BacktestLimits) (now : ℕ → ℕ)
      → Step p (record p { runner = start_queued_backtests saved now p.runner })
  start_round :
      (p : Process V) (concurrency : ℕ) (now : ℕ → ℕ) (r : Runner V)
      → start_child concurrency now p.runner ≡ some r
      → Step p (record p { runner = r })
  lose_start :
      (p : Process V) (now : ℕ) (started : Tables V × ℕ)
      → start_next_queued_backtest now p.runner.tables ≡ some started
      → Step p (record { runner = with_tables p.runner started.0; left = started.1 ∷ p.left })
  child_members :
      (p : Process V) (id : ℕ) (periods : List UniversePeriod) (after : Tables V)
      → is_child id p.runner.children ≡ true
      → replace_universe_members id periods p.runner.tables ≡ some after
      → Step p (set_tables p after)
  child_result :
      (p : Process V) (id : ℕ) (result : BacktestResult) (now : ℕ) (after : Tables V)
      → is_child id p.runner.children ≡ true
      → save_result id result now p.runner.tables ≡ some after
      → Step p (set_tables p after)
  child_failure :
      (p : Process V) (id : ℕ) (message : ErrorMessage) (now : ℕ)
      → is_child id p.runner.children ≡ true
      → Step p (set_tables p (save_failure id message now p.runner.tables))
  child_end :
      (p : Process V) (id : ℕ) (child_end : ChildEnd) (end_write : EndWrite) (now : ℕ)
      → is_child id p.runner.children ≡ true
      → Step p (record {
        runner = run_child_end id child_end end_write now p.runner;
        left = if is_not_written end_write then id ∷ p.left else p.left;
      })
  new_process :
      (p : Process V) (now : ℕ)
      → Step p (record { runner = restart now p.runner.tables; left = [] })

pub data Reach {V : Type 0} (s : Process V) : Process V → Type 0 where
  here : Reach s s
  next : {t u : Process V} → Reach s t → Step t u → Reach s u

-- The ids go up to the next id, the rows agree with the backtests that run, and these are backtests that
-- the table has had.
pub record IsTableOk {V : Type 0} (running : List ℕ) (rows : List (BacktestRow V)) (next_id : ℕ)
    : Type 0 where
  pub ordered : IsOrdered row_id 0 rows next_id
  pub rows_ok : All (IsRowOk running) rows
  pub known : All (λ c. c < next_id) running

-- What holds of the table, the tasks and the backtests without a task at each time.
pub record IsSound {V : Type 0} (p : Process V) : Type 0 where
  pub table_ok :
      IsTableOk (p.runner.children ++ p.left) p.runner.tables.rows p.runner.tables.next_id
  pub count : p.runner.running_count ≡ length p.runner.children
