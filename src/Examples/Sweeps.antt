-- ===== src/Examples/Sweeps.antt =====
-- Runs of the backtest queue and of parameter sweeps.
use atrade.Prelude.Tables.{IsOrdered}
use atrade.Prelude.{
  ℕ, ◌≡◌, ◌≤◌, ◌<◌, refl, ◌⊎◌, inl, Bool, true, false, ◌==◌, List, [], ◌∷◌, map, max, length, none,
  some, arith, All,
}
use atrade.Prelude.Int.{ℤ, pos, magnitude, ◌+ℤ◌, ◌-ℤ◌, ◌*ℤ◌}
use atrade.Bar.{BarPeriod}
use mathlib.Core.List.{Memᴰ}
use atrade.Backtests.{BacktestStatus, BacktestRequest, BacktestRow}
use atrade.Backtests.Rows.{NewBacktest, new_row, read_request, find_split_time}
use atrade.Backtests.Requests.{read_request-new_row}
use atrade.Backtests.Store.{
  Tables, insert_backtest, oldest_queued, update_where, start_row, start_next_queued_backtest,
}
use atrade.Backtests.Sweeps.{insert_sweep, delete_sweep, select_sweep_runs}
use atrade.Backtests.Runner.{
  Runner, read_backtest_limits, start_queued_backtests, run_child_end, timeout, written,
}
use atrade.Backtests.Starts.{start_queued_backtests-IsDone}
use atrade.Backtests.Liveness.{IsOldest, start_queued_backtests-oldest}
use atrade.Backtests.Lifecycle.{is_child, row_id}
use atrade.Backtests.Steps.{
  Process, Reach, IsSound, here, next, start_backtest, check_queue, child_end, with_tables,
}
use atrade.Backtests.Sound.{Reach-IsSound}
use atrade.Backtests.Grid.{
  ParameterType, StrategyParameter, GridEntry, ParameterValues, int_value, bool_value, Numbers,
  make_grid, made, max_sweep_runs,
}
use atrade.Backtests.Combinations.{IsCombination, make_grid-IsCombination}
use atrade.Backtests.SweepStart.{sweep_runs, queued_run, insert_sweep-sweep_runs}
use atrade.Backtests.SweepRuns.{DeleteOutcome, delete_sweep-DeleteOutcome}

abbrev request : BacktestRequest ℕ
request = record {
  strategy_version_id = 3;
  instrument = some (record { symbol = "AAPL"; exchange = "NASDAQ"; currency = "USD" });
  bar_period = BarPeriod.one_day;
  time_range = record { start_utc = 1000; end_utc = 2000 };
  paper_capital_usd = pos 100000;
  out_of_sample_share = 30;
  source_order = none;
  universe = none;
  parameters = none;
}

abbrev new : NewBacktest ℕ
new = record {
  request = request;
  bar_range = record { start_utc = 1000; end_utc = 2000 };
  created_at_utc = 5000;
  conversation_id = none;
  sweep_id = none;
  has_split_check_pending = false;
}

split_time : find_split_time (record { start_utc = 1000; end_utc = 2000 }) 30 ≡ some 1700
unfolding find_split_time
split_time = refl

read_request-new_row_example : read_request (new_row 7 new "USD") ≡ request
read_request-new_row_example = read_request-new_row 7 new "USD" refl (inl refl)

abbrev empty : Tables ℕ
empty = record {
  rows = [];
  next_id = 1;
  members = [];
  equity_points = [];
  trades = [];
  sweeps = [];
  next_sweep_id = 1;
  referred = [];
}

abbrev idle : Runner ℕ
idle = record { tables = empty; running_count = 0; children = [] }

abbrev idle_process : Process ℕ
idle_process = record { runner = idle; left = [] }

idle_process-IsSound : IsSound idle_process
idle_process-IsSound = record {
  table_ok = record { ordered = omega arith; rows_ok = tt; known = tt };
  count = refl;
}

abbrev first_row : BacktestRow ℕ
first_row = new_row 1 new "USD"

abbrev queued_tables : Tables ℕ
queued_tables = record empty { rows = first_row ∷ []; next_id = 2 }

abbrev queued : Runner ℕ
queued = with_tables idle queued_tables

inserted : insert_backtest new [] empty ≡ some (queued_tables, 1)
unfolding insert_backtest
inserted = refl

queued-running : is_child 1 (start_queued_backtests none (λ k. 6000) queued).children ≡ true
unfolding start_queued_backtests new_row
queued-running = refl

abbrev started : Runner ℕ
started = start_queued_backtests none (λ k. 6000) queued

abbrev ended : Runner ℕ
ended = run_child_end 1 timeout written 9000 started

abbrev process_of : Runner ℕ → Process ℕ
process_of runner = record { runner = runner; left = [] }

-- The backtest is queued, its child starts, and it times out.
run_to_timeout : Reach idle_process (process_of ended)
run_to_timeout =
    next
      (next (next here (start_backtest idle_process new [] queued_tables 1 inserted))
        (check_queue (process_of queued) none (λ k. 6000)))
      (child_end (process_of started) 1 timeout written 9000 queued-running)

Reach-IsSound_example : IsSound (process_of ended)
Reach-IsSound_example = Reach-IsSound run_to_timeout idle_process-IsSound

one_at_once : 0 < (read_backtest_limits none).concurrency
unfolding read_backtest_limits
one_at_once = omega arith

start_queued_backtests-IsDone_example :
    (((read_backtest_limits none).concurrency ≤ started.running_count)
      ⊎ (oldest_queued started.tables.rows ≡ none))
    × (started.running_count ≤ max 0 (read_backtest_limits none).concurrency)
start_queued_backtests-IsDone_example = start_queued_backtests-IsDone none (λ k. 6000) queued

abbrev first_started : Tables ℕ
first_started = update_where (λ row. row.id == 1) (start_row 6000) queued_tables

started_first : start_next_queued_backtest 6000 queued_tables ≡ some (first_started, 1)
unfolding start_next_queued_backtest new_row
started_first = refl

first_id : first_row.id ≡ 1
unfolding new_row
first_id = refl

queued_tables-IsOrdered : IsOrdered row_id 0 queued_tables.rows queued_tables.next_id
queued_tables-IsOrdered = (omega (arith, first_id), omega (arith, first_id))

first_IsQueued : first_row.status ≡ BacktestStatus.queued
unfolding new_row
first_IsQueued = refl

only_first : IsOldest 1 queued_tables.rows
only_first row (Memᴰ.head e) q = rw (e, first_id) (omega arith)
only_first row (Memᴰ.tail m) q = elim m [ ]

start_queued_backtests-oldest_example :
    is_child 1 (start_queued_backtests none (λ k. 6000) queued).children ≡ true
unfolding new_row
start_queued_backtests-oldest_example =
    start_queued_backtests-oldest none (λ k. 6000) queued first_row one_at_once
      queued_tables-IsOrdered (Memᴰ.head refl) first_IsQueued only_first

-- A sweep of 2 runs.
abbrev of_sweep : ℕ → NewBacktest ℕ
of_sweep v = record new { sweep_id = some 1; request = record request { parameters = some v } }

abbrev after_sweep : Tables ℕ
after_sweep = record empty {
  rows = new_row 1 (of_sweep 10) "USD" ∷ new_row 2 (of_sweep 20) "USD" ∷ [];
  next_id = 3;
  sweeps = record { id = 1; strategy_version_id = 3; grid = "[]"; created_at_utc = 5000 } ∷ [];
  next_sweep_id = 2;
}

sweep_inserted : insert_sweep new "[]" (10 ∷ 20 ∷ []) [] empty ≡ some (after_sweep, 1)
unfolding insert_sweep
sweep_inserted = refl

no_run : select_sweep_runs 1 empty.rows ≡ []
unfolding select_sweep_runs
no_run = refl

insert_sweep-sweep_runs_example : sweep_runs 1 after_sweep ≡ map queued_run (10 ∷ 20 ∷ [])
insert_sweep-sweep_runs_example =
    insert_sweep-sweep_runs new "[]" (10 ∷ 20 ∷ []) [] empty after_sweep 1 sweep_inserted no_run

delete_sweep-DeleteOutcome_example : DeleteOutcome 1 after_sweep (delete_sweep 1 after_sweep)
delete_sweep-DeleteOutcome_example = delete_sweep-DeleteOutcome 1 after_sweep

-- A grid of 2 integers and a bool.
abbrev numbers : Numbers ℕ
numbers = record { scale = 1; round_float = magnitude }

abbrev entries : List GridEntry
entries =
    record { name = "period"; start = some (pos 10); end = some (pos 25); step = some (pos 10) }
    ∷ record { name = "long"; start = none; end = none; step = none }
    ∷ []

abbrev parameters : List StrategyParameter
parameters =
    record { name = "period"; type = ParameterType.int_type }
    ∷ record { name = "long"; type = ParameterType.bool_type }
    ∷ []

abbrev combination : ℤ → Bool → ParameterValues ℕ
combination period long = ("period", int_value period) ∷ ("long", bool_value long) ∷ []

abbrev grid : List (ParameterValues ℕ)
grid =
    combination (pos 10) false
    ∷ combination (pos 10) true
    ∷ combination (pos 20) false
    ∷ combination (pos 20) true
    ∷ []

grid_made : make_grid numbers entries parameters ≡ made grid
unfolding make_grid ◌+ℤ◌ ◌*ℤ◌ ◌-ℤ◌
grid_made = refl

make_grid-IsCombination_example :
    (1 ≤ length grid)
    × (length grid ≤ max_sweep_runs)
    × All (IsCombination numbers parameters entries) grid
make_grid-IsCombination_example = make_grid-IsCombination numbers entries parameters grid grid_made
