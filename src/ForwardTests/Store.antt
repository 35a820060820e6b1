-- ===== src/ForwardTests/Store.antt =====
-- The statements of backend/src/atrade/forward_test/forward_test_store.py. A statement that only reads
-- for a page is not modelled.
use atrade.Prelude.Tables.{update_rows}
use atrade.Prelude.{
  ℕ, ◌==◌, leb, Bool, true, false, not, ◌&&◌, ◌||◌, List, [], ◌∷◌, ◌++◌, any, Option, none, some,
  if◌then◌else◌,
}
use atrade.ForwardTests.{
  DesiredState, ForwardTestStatus, InterruptionReason, ForwardTestError, ForwardTestRow,
  ForwardTestInterruption, Tables, is_active, is_to_compare,
}

abbrev pub is_stopped_state : DesiredState → Bool
is_stopped_state DesiredState.running = false
is_stopped_state DesiredState.stopped = true

abbrev pub has_come : ℕ → Option ℕ → Bool
has_come now_utc none = false
has_come now_utc (some end_time_utc) = leb end_time_utc now_utc

unfoldable pub is_stop_wanted : ℕ → ForwardTestRow → Bool
is_stop_wanted now_utc row = is_stopped_state row.desired_state || has_come now_utc row.end_time_utc

-- `client_id IS NOT NULL`
abbrev pub is_held : Option ℕ → Bool
is_held none = false
is_held (some client_id) = true

abbrev pub row_id : ForwardTestRow → ℕ
row_id row = row.id

-- `UPDATE forward_test SET … WHERE id = %(id)s`
abbrev pub update_row :
    ℕ → (ForwardTestRow → ForwardTestRow) → List ForwardTestRow → List ForwardTestRow
update_row id set_row rows = update_rows (λ row. row_id row == id) set_row rows

abbrev pub update_table : ℕ → (ForwardTestRow → ForwardTestRow) → Tables → Tables
update_table id set_row tables = record tables { rows = update_row id set_row tables.rows }

abbrev pub write_desired_state : ℕ → DesiredState → Tables → Tables × Bool
write_desired_state id desired_state tables = (
  update_table id (λ row. record row { desired_state = desired_state }) tables,
  any (λ (row : ForwardTestRow). row.id == id) tables.rows,
)

unfoldable pub select_rows_to_compare : List ForwardTestRow → List ForwardTestRow
select_rows_to_compare [] = []
select_rows_to_compare (row ∷ rows) =
    let rest = select_rows_to_compare rows in
    if is_to_compare row.status (is_held row.client_id) then row ∷ rest else rest

abbrev pub set_status : ForwardTestStatus → ForwardTestRow → ForwardTestRow
set_status status row = record row { status = status }

abbrev pub write_status : ℕ → ForwardTestStatus → Tables → Tables
write_status id status tables = update_table id (set_status status) tables

-- `COALESCE(error_message, …)`
abbrev pub first_message :
    Option ForwardTestError → Option ForwardTestError → Option ForwardTestError
first_message none new = new
first_message (some old) new = some old

abbrev pub is_open_of : ℕ → ForwardTestInterruption → Bool
is_open_of id interruption =
    interruption.forward_test_id == id && not (is_held interruption.ended_at_utc)

unfoldable pub end_open : ℕ → ℕ → List ForwardTestInterruption → List ForwardTestInterruption
end_open id ended_at_utc [] = []
end_open id ended_at_utc (interruption ∷ interruptions) =
    (if is_open_of id interruption
      then record interruption { ended_at_utc = some ended_at_utc }
      else interruption)
    ∷ end_open id ended_at_utc interruptions

abbrev pub end_interruption : ℕ → ℕ → Tables → Tables
end_interruption id ended_at_utc tables = record tables {
  interruptions = end_open id ended_at_utc tables.interruptions;
}

-- The index holds one open interruption of a forward test.
unfoldable pub start_interruption : ℕ → InterruptionReason → ℕ → Tables → Tables
start_interruption id reason started_at_utc tables = record tables {
  interruptions =
      if any (is_open_of id) tables.interruptions
      then tables.interruptions
      else tables.interruptions
        ++ record {
          forward_test_id = id;
          reason = reason;
          started_at_utc = started_at_utc;
          ended_at_utc = none;
        }
          ∷ [];
}

-- What a forward test ends with: "stopped" clears the message.
pub data EndStatus : Type 0 where
  ends_stopped ends_failed : EndStatus

abbrev pub ended_row : EndStatus → ℕ → Option ForwardTestError → ForwardTestRow → ForwardTestRow
ended_row ends_stopped stopped_at_utc message row = record row {
  status = ForwardTestStatus.stopped;
  client_id = none;
  stopped_at_utc = some stopped_at_utc;
  error_message = none;
}
ended_row ends_failed stopped_at_utc message row = record row {
  status = ForwardTestStatus.failed;
  client_id = none;
  stopped_at_utc = some stopped_at_utc;
  error_message = first_message row.error_message message;
}

abbrev pub write_forward_test_end : ℕ → EndStatus → ℕ → Option ForwardTestError → Tables → Tables
write_forward_test_end id status stopped_at_utc message tables =
    end_interruption id stopped_at_utc
      (update_table id (ended_row status stopped_at_utc message) tables)

abbrev pub fail_row : ForwardTestStatus → ForwardTestError → ForwardTestRow → ForwardTestRow
fail_row status message row = record row {
  status = status;
  error_message = first_message row.error_message (some message);
}

abbrev pub write_failure_with_client_id : ℕ → ForwardTestStatus → ForwardTestError → Tables → Tables
write_failure_with_client_id id status message tables =
    update_table id (fail_row status message) tables

abbrev pub crash_row : ForwardTestStatus → ℕ → ForwardTestError → ForwardTestRow → ForwardTestRow
crash_row status crash_count message row = record row {
  status = status;
  crash_count = crash_count;
  error_message = first_message row.error_message (some message);
}

abbrev pub write_crash : ℕ → ForwardTestStatus → ℕ → ForwardTestError → Tables → Tables
write_crash id status crash_count message tables =
    update_table id (crash_row status crash_count message) tables

abbrev pub wait_row : ForwardTestRow → ForwardTestRow
wait_row row =
    if is_active row.status then set_status ForwardTestStatus.waiting_for_gateway row else row

unfoldable pub write_waiting_for_gateway : ℕ → ℕ → Tables → Tables
unfolding start_interruption update_rows
write_waiting_for_gateway id started_at_utc tables =
    start_interruption id InterruptionReason.gateway started_at_utc
      (update_table id wait_row tables)

abbrev pub live_row : ForwardTestRow → ForwardTestRow
live_row row =
    if is_active row.status
    then record row { status = ForwardTestStatus.running; error_message = none }
    else row

abbrev pub write_live_node_start : ℕ → ℕ → Tables → Tables
write_live_node_start id started_at_utc tables =
    end_interruption id started_at_utc (update_table id live_row tables)

abbrev pub write_error_message : ℕ → ForwardTestError → Tables → Tables
write_error_message id message tables =
    update_table id (λ row. record row { error_message = some message }) tables
