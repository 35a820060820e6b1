-- ===== src/Backtests/Sound.antt =====
-- The invariant of the backtests of a Web process, and what follows of it.
use atrade.Prelude.{ℕ, ◌++◌, Option}
use atrade.Backtests.Store.{Tables}
use atrade.Backtests.RowStates.{is_child-append_left}
use atrade.Backtests.Runner.{BacktestLimits, read_backtest_limits, start_queued_backtests}
use atrade.Backtests.Starts.{start_children-keeps}
use atrade.Backtests.Steps.{
  Process, Step, Reach, IsSound, set_tables, start_round, lose_start, start_backtest, start_sweep,
  cancel_sweep, delete_one, delete_runs, check_queue, child_members, child_result, child_failure,
  child_end, new_process, here, next,
}
use atrade.Backtests.TableStates.{
  IsOk, insert_backtest-IsOk, insert_sweep-IsOk, cancel_queued_runs-IsOk, delete_backtest-IsOk,
  delete_sweep-IsOk,
}
use atrade.Backtests.WriteStates.{
  replace_universe_members-IsOk, save_result-IsOk, save_failure-IsOk,
}
use atrade.Backtests.TaskStates.{
  run_child_end-IsSound, start_child-IsSound, lose_start-IsSound, restart-IsSound,
}

module _ {V : Type 0} where
  start_queued_backtests-IsSound :
      (saved : Option BacktestLimits) (now : ℕ → ℕ) (p : Process V)
      → IsSound p
      → IsSound (record p { runner = start_queued_backtests saved now p.runner })
  unfolding start_queued_backtests
  start_queued_backtests-IsSound saved now p h =
      let concurrency = (read_backtest_limits saved).concurrency in
      start_children-keeps (λ r. IsSound (record { runner = r; left = p.left })) concurrency now
        (λ s t e ok. start_child-IsSound concurrency now p.left s t e ok) concurrency p.runner h

  set_tables-IsSound :
      (p : Process V) (tables : Tables V)
      → IsSound p
      → IsOk (p.runner.children ++ p.left) tables
      → IsSound (set_tables p tables)
  set_tables-IsSound p tables h ok = record { table_ok = ok; count = h.count }

  -- Each step keeps the invariant.
  pub Step-IsSound : {p q : Process V} → Step p q → IsSound p → IsSound q
  Step-IsSound (start_backtest p new periods after id e) h = set_tables-IsSound p after h (
      insert_backtest-IsOk (p.runner.children ++ p.left) new periods p.runner.tables after id e
        h.table_ok)
  Step-IsSound (start_sweep p new grid combinations periods after sweep_id e) h =
      set_tables-IsSound p after h (
        insert_sweep-IsOk (p.runner.children ++ p.left) new grid combinations periods
          p.runner.tables after sweep_id e h.table_ok)
  Step-IsSound (cancel_sweep p sweep_id now) h = set_tables-IsSound p _ h (
      cancel_queued_runs-IsOk (p.runner.children ++ p.left) sweep_id now p.runner.tables h.table_ok)
  Step-IsSound (delete_one p id) h =
      set_tables-IsSound p _ h
        (delete_backtest-IsOk (p.runner.children ++ p.left) id p.runner.tables h.table_ok)
  Step-IsSound (delete_runs p sweep_id) h =
      set_tables-IsSound p _ h
        (delete_sweep-IsOk (p.runner.children ++ p.left) sweep_id p.runner.tables h.table_ok)
  Step-IsSound (check_queue p saved now) h = start_queued_backtests-IsSound saved now p h
  Step-IsSound (start_round p concurrency now r e) h =
      start_child-IsSound concurrency now p.left p.runner r e h
  Step-IsSound (lose_start p now started e) h = lose_start-IsSound p now started e h
  Step-IsSound (child_members p id periods after c e) h = set_tables-IsSound p after h (
      replace_universe_members-IsOk (p.runner.children ++ p.left) id periods p.runner.tables after e
        h.table_ok)
  Step-IsSound (child_result p id result now after c e) h = set_tables-IsSound p after h (
      save_result-IsOk (p.runner.children ++ p.left) id now result p.runner.tables after e
        (is_child-append_left id p.runner.children p.left c) h.table_ok)
  Step-IsSound (child_failure p id message now c) h = set_tables-IsSound p _ h (
      save_failure-IsOk (p.runner.children ++ p.left) id now message p.runner.tables
        (is_child-append_left id p.runner.children p.left c) h.table_ok)
  Step-IsSound (child_end p id end_kind end_write now c) h =
      run_child_end-IsSound p id now end_kind end_write c h
  Step-IsSound (new_process p now) h = restart-IsSound now p h

  -- All steps from a sound state keep this: the ids of the table of backtests go up, the times of each
  -- row are those of its status, each running backtest has a task, or no task until the next Web process
  -- because the answer of its start was lost or no write of its end answered, each backtest of a task
  -- has started, and the count of the runner is that of its tasks.
  pub Reach-IsSound : {p q : Process V} → Reach p q → IsSound p → IsSound q
  Reach-IsSound here h = h
  Reach-IsSound (next steps step) h = Step-IsSound step (Reach-IsSound steps h)
