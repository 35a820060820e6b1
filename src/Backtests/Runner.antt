-- ===== src/Backtests/Runner.antt =====
-- The backtest queue of the Web process (backend/src/atrade/backtest/backtest_runner.py) and the
-- limits of backtests (backtest_limits.py). The state is the tables and what the Web process has: the
-- count of the running children and their tasks. A step that waits for the database is the step after
-- the wait (`retry_until_database_answers`), and the signals to a process are no part of the state.
use Prim.Native.String.{String}
use atrade.Prelude.{
  ℕ, zero, suc, ◌+◌, ◌-◌, ◌*◌, ◌==◌, ltb, Bool, true, false, List, [], ◌∷◌, Option, none, some,
  if◌then◌else◌, ◌>>=◌,
}
use atrade.Prelude.Int.{ℤ}
use atrade.Backtests.{BacktestStatus, restart_error, child_run_error, child_failure}
use atrade.Backtests.Store.{
  Tables, start_next_queued_backtest, end_backtest, fail_running_backtests,
}

pub record BacktestLimits : Type 0 where
  pub timeout_seconds : ℕ
  pub concurrency : ℕ

-- `DEFAULT_BACKTEST_LIMITS`
abbrev pub default_backtest_limits : BacktestLimits
default_backtest_limits = record { timeout_seconds = 120 * 60; concurrency = 1 }

-- The table `backtest_limits` has 1 row at most.
unfoldable pub read_backtest_limits : Option BacktestLimits → BacktestLimits
read_backtest_limits none = default_backtest_limits
read_backtest_limits (some saved_limits) = saved_limits

unfoldable pub save_backtest_limits : BacktestLimits → Option BacktestLimits → Option BacktestLimits
save_backtest_limits limits saved = some limits

-- `children` are the backtests of the tasks of `run_child` that have not ended.
pub record Runner (V : Type 0) : Type 0 where
  pub tables : Tables V
  pub running_count : ℕ
  pub children : List ℕ

-- How the child process of a backtest ends: `wait_for` raises a TimeoutError, or the process has a
-- return code, or the runner could not run it.
pub data ChildEnd : Type 0 where
  timeout : ChildEnd
  exited : (return_code : ℤ) (error_output : String) → ChildEnd
  not_run : ChildEnd

-- Whether the writes of the end of a backtest answer: that of `run_child_until_end`, else that of
-- `fail_backtest`, else none of them.
pub data EndWrite : Type 0 where
  written written_by_fail_backtest not_written : EndWrite

abbrev pub is_not_written : EndWrite → Bool
is_not_written written = false
is_not_written written_by_fail_backtest = false
is_not_written not_written = true

unfoldable pub remove_child : ℕ → List ℕ → List ℕ
remove_child backtest_id [] = []
remove_child backtest_id (c ∷ children) =
    let rest = remove_child backtest_id children in if c == backtest_id then children else c ∷ rest

module _ {V : Type 0} where
  -- The task of a backtest that has started.
  abbrev pub add_child : Runner V → Tables V × ℕ → Runner V
  add_child runner started = record {
    tables = started.0;
    running_count = runner.running_count + 1;
    children = started.1 ∷ runner.children;
  }

  -- A round of the loop of `start_queued_backtests`; `none`: the loop ends. `read_now_utc` gives the
  -- time of the clock at the start of the next child.
  unfoldable pub start_child : ℕ → (ℕ → ℕ) → Runner V → Option (Runner V)
  unfolding start_next_queued_backtest
  start_child concurrency read_now_utc runner =
      if ltb runner.running_count concurrency
      then start_next_queued_backtest (read_now_utc runner.running_count) runner.tables
        >>= (λ started. some (add_child runner started))
      else none

  -- The loop, on fuel.
  unfoldable pub start_children : ℕ → ℕ → (ℕ → ℕ) → Runner V → Runner V
  unfolding start_child
  start_children zero concurrency read_now_utc runner = runner
  start_children (suc fuel) concurrency read_now_utc runner =
      elim (start_child concurrency read_now_utc runner) [
        | none ↦ runner
        | some started ↦ start_children fuel concurrency read_now_utc started
      ]

  -- Each round starts a child, so `concurrency` rounds are enough.
  unfoldable pub start_queued_backtests : Option BacktestLimits → (ℕ → ℕ) → Runner V → Runner V
  unfolding start_children read_backtest_limits
  start_queued_backtests saved_limits read_now_utc runner =
      let limits = read_backtest_limits saved_limits in
      start_children limits.concurrency limits.concurrency read_now_utc runner

  -- `run_child_until_end`, when its write answers, with `fail_backtest` of a process that did not run.
  unfoldable pub write_child_end : ℕ → ChildEnd → ℕ → Tables V → Tables V
  unfolding end_backtest
  write_child_end backtest_id timeout ended_at_utc tables =
      end_backtest backtest_id ended_at_utc BacktestStatus.timed_out none tables
  write_child_end backtest_id (exited return_code error_output) ended_at_utc tables =
      end_backtest backtest_id ended_at_utc BacktestStatus.failed
        (some (child_failure return_code error_output)) tables
  write_child_end backtest_id not_run ended_at_utc tables =
      end_backtest backtest_id ended_at_utc BacktestStatus.failed (some child_run_error) tables

  unfoldable pub write_end : ℕ → ChildEnd → EndWrite → ℕ → Tables V → Tables V
  unfolding write_child_end end_backtest
  write_end backtest_id child_end written ended_at_utc tables =
      write_child_end backtest_id child_end ended_at_utc tables
  write_end backtest_id child_end written_by_fail_backtest ended_at_utc tables =
      end_backtest backtest_id ended_at_utc BacktestStatus.failed (some child_run_error) tables
  write_end backtest_id child_end not_written ended_at_utc tables = tables

  -- The end of the task `run_child`.
  unfoldable pub run_child_end : ℕ → ChildEnd → EndWrite → ℕ → Runner V → Runner V
  unfolding write_end remove_child
  run_child_end backtest_id child_end end_write ended_at_utc runner = record {
    tables = write_end backtest_id child_end end_write ended_at_utc runner.tables;
    running_count = runner.running_count - 1;
    children = remove_child backtest_id runner.children;
  }

  -- A new Web process: the children of an earlier one have ended, and `keep_running` fails the
  -- backtests that are running.
  unfoldable pub restart : ℕ → Tables V → Runner V
  unfolding fail_running_backtests
  restart ended_at_utc tables = record {
    tables = fail_running_backtests ended_at_utc restart_error tables;
    running_count = 0;
    children = [];
  }
