-- ===== src/Examples/ForwardTestRuns.antt =====
-- Runs of a forward test: its start with 1000 USD of "By hand", its child, and its stop.
use mathlib.Core.List.{Memᴰ}
use atrade.Prelude.{ℕ, List, ◌↔◌, ◌≡◌, refl, false, true, arith, [], Option, none, some}
use atrade.Prelude.Int.{ℤ, pos, ◌+ℤ◌, ◌-ℤ◌, is_zero}
use atrade.Bar.{BarPeriod}
use atrade.Ledger.{same_owner}
use atrade.Ledger.Table.{
  start_ledger, create_forward_test_owner, select_owner_account, write_capital_allocation,
}
use atrade.Ledger.Stopped.{shares, cash}
use atrade.ForwardTests.{
  capital_too_large, DesiredState, ForwardTestStatus, UniverseKind, ForwardTestRequest,
  ForwardTestRow, Tables, StartResult, started, no_free_client_id,
}
use atrade.ForwardTests.Store.{is_stop_wanted, write_desired_state, set_status}
use atrade.ForwardTests.Insert.{new_forward_test, start_forward_test, is_taken}
use atrade.ForwardTests.Worker.{with_tables, compare_row, compare_states, new_child, request_stop}
use atrade.ForwardTests.Child.{ChildMode, RunningChild, ForwardTestWorker, Answers, get_child}
use atrade.ForwardTests.Starts.{IsStartResult, start_forward_test-IsStartResult}
use atrade.ForwardTests.Compares.{IsWorkerOk, ActiveStatus, snapshot}
use atrade.ForwardTests.Sound.{starts, desires, compares, Reach, here, next, Reach-IsWorkerOk}
use atrade.ForwardTests.Stops.{compare_row-stopped}
use atrade.ForwardTests.OnePass.{Compares, IsToCompare, compare_states-Compares}
use atrade.Prelude.Tables.{IsOrdered}
use atrade.ForwardTests.Requests.{compare_states-HasRequest}
use atrade.Examples.StockSplits.{stock}
use atrade.Examples.Ledgers.{decimals}

abbrev request : ForwardTestRequest
request = record {
  strategy_version_id = 1;
  instrument = some stock;
  bar_period = BarPeriod.one_hour;
  allocated_capital_usd = pos 1000;
  end_time_utc = none;
  universe_kind = UniverseKind.single;
  universe_top_n = none;
  quarter_start_utc = none;
  members = [];
}

abbrev no_tables : Tables
no_tables = record {
  rows = [];
  next_id = 3;
  interruptions = [];
  members = [];
  ledger = start_ledger [] "DU1" [] (pos 5000) 5;
}

abbrev start : Tables → StartResult
start tables = start_forward_test request 20 2 10 (pos 5000) "DU1" tables

start_forward_test-IsStartResult_example :
    IsStartResult request 20 2 10 (pos 5000) "DU1" no_tables (start no_tables)
start_forward_test-IsStartResult_example =
    start_forward_test-IsStartResult request 20 2 10 (pos 5000) "DU1" no_tables

abbrev tables_of : StartResult → Tables
tables_of (started tables row) = tables
tables_of (capital_too_large u) = no_tables
tables_of no_free_client_id = no_tables

abbrev row : ForwardTestRow
row = new_forward_test request 20 10 3

abbrev started_tables : Tables
started_tables = tables_of (start no_tables)

starts_row : start no_tables ≡ started started_tables row
unfolding start_forward_test start_ledger ◌+ℤ◌ ◌-ℤ◌ is_zero
starts_row = refl

abbrev answers : Option ℤ → Answers
answers code = record {
  now_utc = 50;
  read_exit_code = λ id. code;
  starts_child = λ id mode. true;
  is_ready_to_run = λ row. true;
}

abbrev no_worker : ForwardTestWorker
no_worker = record { tables = no_tables; running_children = [] }

abbrev new_worker : ForwardTestWorker
new_worker = with_tables started_tables no_worker

-- A comparison that knows the row as the desired state says.
abbrev compare_with_state :
    DesiredState → Option ℤ → ForwardTestRow → ForwardTestWorker → ForwardTestWorker
compare_with_state d code r worker =
    compare_row decimals (answers code) (snapshot d ActiveStatus.running r) worker

abbrev running_worker : ForwardTestWorker
running_worker = compare_with_state DesiredState.running none row new_worker

-- The user stops it, and the next comparison asks the child to stop.
abbrev wanted_worker : ForwardTestWorker
wanted_worker =
    with_tables (write_desired_state 3 DesiredState.stopped running_worker.tables).0 running_worker

abbrev running_row : ForwardTestRow
running_row = record row { status = ForwardTestStatus.running }

abbrev wanted_row : ForwardTestRow
wanted_row = record running_row { desired_state = DesiredState.stopped }

abbrev stopping_worker : ForwardTestWorker
stopping_worker = compare_with_state DesiredState.stopped none wanted_row wanted_worker

abbrev stopping_row : ForwardTestRow
stopping_row = record wanted_row { status = ForwardTestStatus.stopping }

has_started_row : Memᴰ row new_worker.tables.rows
unfolding start_forward_test start_ledger ◌+ℤ◌ ◌-ℤ◌ is_zero
has_started_row = Memᴰ.head refl

has_wanted_row : Memᴰ wanted_row wanted_worker.tables.rows
unfolding compare_row start_forward_test start_ledger ◌+ℤ◌ ◌-ℤ◌ is_zero
has_wanted_row = Memᴰ.head refl

has_stopping_row : Memᴰ stopping_row stopping_worker.tables.rows
unfolding compare_row start_forward_test start_ledger ◌+ℤ◌ ◌-ℤ◌ is_zero
has_stopping_row = Memᴰ.head refl

stopping_run : Reach decimals no_worker stopping_worker
stopping_run =
    next
      (next
        (next (next here (starts request 20 2 10 (pos 5000) "DU1" started_tables row starts_row))
          (compares (answers none) DesiredState.running ActiveStatus.running row has_started_row))
        (desires 3 DesiredState.stopped))
      (compares (answers none) DesiredState.stopped ActiveStatus.running wanted_row has_wanted_row)

no_worker-IsWorkerOk : IsWorkerOk no_worker
no_worker-IsWorkerOk = record { ordered = omega arith; clients = tt; rows_ok = tt; supported = tt }

Reach-IsWorkerOk_example : IsWorkerOk stopping_worker
Reach-IsWorkerOk_example = Reach-IsWorkerOk stopping_run no_worker-IsWorkerOk

-- The child ends with the exit code 0.
abbrev stopped_worker : ForwardTestWorker
stopped_worker = compare_with_state DesiredState.stopped (some (pos 0)) stopping_row stopping_worker

abbrev stopping_child : RunningChild
stopping_child = record {
  mode = ChildMode.run;
  started_at_utc = 50;
  is_stop_requested = true;
  is_restart_requested = false;
  is_asked = true;
}

has_child : get_child 3 stopping_worker.running_children ≡ some stopping_child
unfolding get_child compare_row start_forward_test start_ledger ◌+ℤ◌ ◌-ℤ◌ is_zero
has_child = refl

knows_account :
    select_owner_account stopping_worker.tables.ledger (create_forward_test_owner 3) ≡ some "DU1"
unfolding compare_row start_forward_test start_ledger ◌+ℤ◌ ◌-ℤ◌ is_zero select_owner_account
    create_forward_test_owner write_capital_allocation same_owner
knows_account = refl

compare_row-stopped_example :
    (get_child 3 stopped_worker.running_children ≡ none)
    × (is_taken 20 stopped_worker.tables.rows ≡ false)
    × (shares stopped_worker.tables.ledger "DU1" (create_forward_test_owner 3) stock ≡ pos 0)
    × (cash stopped_worker.tables.ledger "DU1" (create_forward_test_owner 3) ≡ pos 0)
compare_row-stopped_example =
    compare_row-stopped decimals stopping_worker
      (Reach-IsWorkerOk stopping_run no_worker-IsWorkerOk) stopping_row has_stopping_row
      DesiredState.stopped ActiveStatus.running (answers (some (pos 0))) stopping_child has_child
      refl refl 20 refl "DU1" stock knows_account

wanted_run : Reach decimals no_worker wanted_worker
wanted_run =
    next
      (next (next here (starts request 20 2 10 (pos 5000) "DU1" started_tables row starts_row))
        (compares (answers none) DesiredState.running ActiveStatus.running row has_started_row))
      (desires 3 DesiredState.stopped)

wanted_worker-IsWorkerOk : IsWorkerOk wanted_worker
wanted_worker-IsWorkerOk = Reach-IsWorkerOk wanted_run no_worker-IsWorkerOk

runs_child : get_child 3 wanted_worker.running_children ≡ some (new_child ChildMode.run 50)
unfolding get_child compare_row start_forward_test start_ledger ◌+ℤ◌ ◌-ℤ◌ is_zero
runs_child = refl

compare_states-Compares_example :
    (ids : List ℕ) × Compares decimals
      (answers none)
      wanted_worker
      ids
      (compare_states decimals (answers none) wanted_worker)
    × IsOrdered (λ id. id) 0 ids wanted_worker.tables.next_id
    × ((r : ForwardTestRow) → Memᴰ r wanted_worker.tables.rows → Memᴰ r.id ids ↔ IsToCompare r)
compare_states-Compares_example =
    compare_states-Compares decimals (answers none) wanted_worker wanted_worker-IsWorkerOk.ordered

compare_states-HasRequest_example :
    (get_child 3 (compare_states decimals (answers none) wanted_worker).running_children
      ≡ some (request_stop (new_child ChildMode.run 50)))
    × Memᴰ
        (set_status ForwardTestStatus.stopping wanted_row)
        (compare_states decimals (answers none) wanted_worker).tables.rows
unfolding is_stop_wanted
compare_states-HasRequest_example =
    compare_states-HasRequest decimals (answers none) wanted_row (new_child ChildMode.run 50) refl
      refl refl wanted_worker wanted_worker-IsWorkerOk has_wanted_row runs_child
