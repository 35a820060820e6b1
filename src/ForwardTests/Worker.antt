-- ===== src/ForwardTests/Worker.antt =====
-- The worker of the forward tests (backend/src/atrade/forward_test/forward_test_worker.py). Its clock, the
-- exit codes of its child processes and the start of a child are arguments; the clock gives one time
-- during a comparison. The log with its `row_errors`, and an error of the database, are not modelled.
use atrade.Prelude.Tables.{update_rows}
use atrade.Prelude.{
  ℕ, ◌+◌, leb, Bool, true, false, not, ◌&&◌, ◌||◌, List, [], ◌∷◌, Option, none, some, if◌then◌else◌,
}
use atrade.Prelude.Int.{ℤ, pos, eqb_ℤ}
use atrade.Ledger.{Decimals}
use atrade.Ledger.Table.{transfer_to_by_hand}
use atrade.ForwardTests.{
  ForwardTestStatus, InterruptionReason, ForwardTestError, ForwardTestRow, Tables, is_active,
  is_running_status, is_waiting_status,
}
use atrade.ForwardTests.Child.{
  ChildMode, RunningChild, ForwardTestWorker, Answers, is_run, get_child, delete_child, put_child,
}
use atrade.ForwardTests.Store.{
  is_stop_wanted, select_rows_to_compare, write_status, start_interruption, EndStatus,
  write_forward_test_end, write_failure_with_client_id, write_crash, write_waiting_for_gateway,
}

abbrev pub with_tables : Tables → ForwardTestWorker → ForwardTestWorker
with_tables tables worker = record worker { tables = tables }

abbrev pub with_child : ℕ → RunningChild → ForwardTestWorker → ForwardTestWorker
with_child id child worker = record worker {
  running_children = put_child id child worker.running_children;
}

abbrev pub can_restart : RunningChild → Bool
can_restart child = is_run child.mode && not child.is_stop_requested

abbrev pub ask_restart : RunningChild → RunningChild
ask_restart child = record child { is_restart_requested = true; is_asked = true }

abbrev pub restart_one : ℕ → ForwardTestWorker → Option RunningChild → ForwardTestWorker
restart_one id worker none = worker
restart_one id worker (some child) =
    if can_restart child then with_child id (ask_restart child) worker else worker

unfoldable pub request_restart : List ℕ → ForwardTestWorker → ForwardTestWorker
unfolding get_child put_child
request_restart [] worker = worker
request_restart (id ∷ ids) worker =
    request_restart ids (restart_one id worker (get_child id worker.running_children))

abbrev pub new_child : ChildMode → ℕ → RunningChild
new_child mode started_at_utc = record {
  mode = mode;
  started_at_utc = started_at_utc;
  is_stop_requested = false;
  is_restart_requested = false;
  is_asked = false;
}

-- `start_running_child`, and then `write_status`; an exception of the start ends the comparison of the
-- row before the write.
abbrev pub start_running_child :
    Answers → ℕ → ChildMode → Option ForwardTestStatus → ForwardTestWorker → ForwardTestWorker
start_running_child answers id mode none worker =
    if answers.starts_child id mode
    then with_child id (new_child mode answers.now_utc) worker
    else worker
start_running_child answers id mode (some status) worker =
    if answers.starts_child id mode
    then with_child id (new_child mode answers.now_utc)
        (with_tables (write_status id status worker.tables) worker)
    else worker

-- A stop without a running child: the orders of the client ID are cancelled.
abbrev pub cancel_when_held :
    Answers → ForwardTestRow → ForwardTestWorker → Option ℕ → ForwardTestWorker
cancel_when_held answers row worker none = worker
cancel_when_held answers row worker (some client_id) =
    start_running_child answers row.id ChildMode.cancel_orders (some ForwardTestStatus.stopping)
      worker

-- A row with the status "running" and no child is a forward test of an earlier worker.
abbrev pub interrupt_earlier : Answers → ForwardTestRow → ForwardTestWorker → ForwardTestWorker
interrupt_earlier answers row worker =
    if is_running_status row.status
    then with_tables
        (start_interruption row.id InterruptionReason.worker_restart answers.now_utc worker.tables)
        worker
    else worker

unfoldable pub start_child_when_needed :
    Answers → ForwardTestRow → ForwardTestWorker → ForwardTestWorker
unfolding is_stop_wanted put_child update_rows start_interruption
start_child_when_needed answers row worker =
    if is_stop_wanted answers.now_utc row
    then cancel_when_held answers row worker row.client_id
    else if not (is_active row.status) || not (answers.is_ready_to_run row)
    then worker
    else start_running_child answers row.id ChildMode.run
        (if is_waiting_status row.status then none else some ForwardTestStatus.running)
        (interrupt_earlier answers row worker)

-- The exit codes of a child.
abbrev pub paper_check_failed_exit_code : ℤ
paper_check_failed_exit_code = pos 3

abbrev pub gateway_unreachable_exit_code : ℤ
gateway_unreachable_exit_code = pos 4

abbrev pub held_fill_exit_code : ℤ
held_fill_exit_code = pos 5

abbrev pub crash_limit : ℕ
crash_limit = 3

-- `CRASH_COUNT_RESET_AFTER`, in microseconds.
abbrev pub crash_count_reset_after : ℕ
crash_count_reset_after = 600000000

abbrev pub count_crash : ForwardTestRow → RunningChild → ℕ → ℕ
count_crash row child now_utc =
    if leb (child.started_at_utc + crash_count_reset_after) now_utc then 1 else row.crash_count + 1

unfoldable pub record_crash : ForwardTestRow → RunningChild → ℕ → ℤ → Tables → Tables
unfolding start_interruption update_rows
record_crash row child now_utc exit_code tables =
    let crash_count = count_crash row child now_utc in
    write_crash row.id
      (if leb crash_limit crash_count then ForwardTestStatus.failed else ForwardTestStatus.starting)
      crash_count (ForwardTestError.crash_described exit_code)
      (start_interruption row.id InterruptionReason.crash now_utc tables)

abbrev pub is_restart : RunningChild → ℤ → Bool
is_restart child exit_code =
    child.is_restart_requested
    && ((eqb_ℤ exit_code (pos 0) || eqb_ℤ exit_code held_fill_exit_code)
        && not child.is_stop_requested)

abbrev pub is_stop : RunningChild → Bool
is_stop child = not (is_run child.mode) || child.is_stop_requested

abbrev pub request_stop : RunningChild → RunningChild
request_stop child = record child { is_stop_requested = true; is_asked = true }

module _ (decimals : Decimals) where
  -- The end of the row, and the shares and the cash of the forward test to "By hand", in one transaction.
  abbrev pub end_and_transfer :
      ForwardTestRow → EndStatus → Option ForwardTestError → ℕ → Tables → Tables
  end_and_transfer row status message now_utc tables =
      let ended = write_forward_test_end row.id status now_utc message tables in
      record ended { ledger = transfer_to_by_hand decimals ended.ledger row.id now_utc }

  unfoldable pub record_child_end : ForwardTestRow → RunningChild → ℤ → ℕ → Tables → Tables
  unfolding update_rows transfer_to_by_hand write_waiting_for_gateway record_crash
  record_child_end row child exit_code now_utc tables =
      if is_restart child exit_code
      then write_status row.id ForwardTestStatus.starting tables
      else if is_stop child && eqb_ℤ exit_code (pos 0)
      then end_and_transfer row EndStatus.ends_stopped none now_utc tables
      else if is_stop child
      then write_failure_with_client_id row.id ForwardTestStatus.stop_failed
          (ForwardTestError.crash_described exit_code) tables
      else if eqb_ℤ exit_code paper_check_failed_exit_code
      then end_and_transfer row EndStatus.ends_failed (some ForwardTestError.paper_check_failed)
          now_utc tables
      else if eqb_ℤ exit_code gateway_unreachable_exit_code
      then write_waiting_for_gateway row.id now_utc tables
      else record_crash row child now_utc exit_code tables

  -- Of a row with a running child.
  abbrev pub compare_child :
      Answers → ForwardTestRow → ForwardTestWorker → RunningChild → Option ℤ → ForwardTestWorker
  compare_child answers row worker child (some exit_code) = record {
    tables = record_child_end row child exit_code answers.now_utc worker.tables;
    running_children = delete_child row.id worker.running_children;
  }
  compare_child answers row worker child none =
      if is_stop_wanted answers.now_utc row && can_restart child
      then with_child row.id (request_stop child)
          (with_tables (write_status row.id ForwardTestStatus.stopping worker.tables) worker)
      else worker

  abbrev pub compare_with :
      Answers → ForwardTestRow → ForwardTestWorker → Option RunningChild → ForwardTestWorker
  compare_with answers row worker none = start_child_when_needed answers row worker
  compare_with answers row worker (some child) =
      compare_child answers row worker child (answers.read_exit_code row.id)

  unfoldable pub compare_row : Answers → ForwardTestRow → ForwardTestWorker → ForwardTestWorker
  unfolding get_child start_child_when_needed record_child_end delete_child put_child is_stop_wanted
      update_rows
  compare_row answers row worker =
      compare_with answers row worker (get_child row.id worker.running_children)

  unfoldable pub compare_rows :
      Answers → List ForwardTestRow → ForwardTestWorker → ForwardTestWorker
  unfolding compare_row
  compare_rows answers [] worker = worker
  compare_rows answers (row ∷ rows) worker =
      compare_rows answers rows (compare_row answers row worker)

  unfoldable pub compare_states : Answers → ForwardTestWorker → ForwardTestWorker
  unfolding compare_rows select_rows_to_compare
  compare_states answers worker =
      compare_rows answers (select_rows_to_compare worker.tables.rows) worker
