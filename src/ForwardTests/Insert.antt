-- ===== src/ForwardTests/Insert.antt =====
-- The start of a forward test: its client ID, its capital and its rows
-- (`start_forward_test` of backend/src/atrade/forward_test/forward_test_store.py).
use Prim.Native.String.{String}
use atrade.Prelude.{
  ℕ, zero, suc, ◌+◌, ◌==◌, Bool, false, ◌&&◌, List, [], ◌∷◌, ◌++◌, any, Option, none, some,
  if◌then◌else◌,
}
use atrade.Prelude.Int.{ℤ, pos, ◌+ℤ◌, ◌-ℤ◌, ltb_ℤ}
use atrade.Ledger.{Instrument, same_instrument}
use atrade.Ledger.Table.{write_capital_allocation}
use atrade.ForwardTests.{
  DesiredState, ForwardTestStatus, ForwardTestRequest, ForwardTestRow, ForwardTestMember, Tables,
  StartResult, started, capital_too_large, no_free_client_id,
}
use atrade.ForwardTests.Store.{is_held}

-- `COALESCE(…, 0)`
abbrev pub or_zero : Option ℤ → ℤ
or_zero none = pos 0
or_zero (some amount) = amount

unfoldable pub select_allocated_usd : List ForwardTestRow → ℤ
select_allocated_usd [] = pos 0
select_allocated_usd (row ∷ rows) =
    (if is_held row.client_id then or_zero row.allocated_capital_usd else pos 0)
    +ℤ select_allocated_usd rows

abbrev pub has_client : ℕ → Option ℕ → Bool
has_client client_id none = false
has_client client_id (some other) = other == client_id

-- `client_id in taken_client_ids`
abbrev pub is_taken : ℕ → List ForwardTestRow → Bool
is_taken client_id rows = any (λ (row : ForwardTestRow). has_client client_id row.client_id) rows

-- Of the next `count` client IDs.
unfoldable pub find_lowest_free_client_id : ℕ → ℕ → List ForwardTestRow → Option ℕ
find_lowest_free_client_id client_id zero rows = none
find_lowest_free_client_id client_id (suc count) rows =
    let rest = find_lowest_free_client_id (client_id + 1) count rows in
    if is_taken client_id rows then rest else some client_id

abbrev pub new_forward_test : ForwardTestRequest → ℕ → ℕ → ℕ → ForwardTestRow
new_forward_test request client_id created_at_utc id = record {
  id = id;
  strategy_version_id = request.strategy_version_id;
  instrument = request.instrument;
  bar_period = request.bar_period;
  desired_state = DesiredState.running;
  status = ForwardTestStatus.starting;
  client_id = some client_id;
  start_balance_usd = none;
  error_message = none;
  created_at_utc = created_at_utc;
  stopped_at_utc = none;
  end_time_utc = request.end_time_utc;
  crash_count = 0;
  allocated_capital_usd = some request.allocated_capital_usd;
  universe_kind = request.universe_kind;
  universe_top_n = request.universe_top_n;
}

abbrev pub insert_forward_test : ForwardTestRequest → ℕ → ℕ → Tables → Tables
insert_forward_test request client_id created_at_utc tables = record tables {
  rows = tables.rows ++ new_forward_test request client_id created_at_utc tables.next_id ∷ [];
  next_id = tables.next_id + 1;
}

abbrev pub same_member : ForwardTestMember → ForwardTestMember → Bool
same_member a b =
    (a.forward_test_id == b.forward_test_id && a.quarter_start_utc == b.quarter_start_utc)
    && same_instrument a.instrument b.instrument

unfoldable pub insert_universe_members :
    ℕ → ℕ → List Instrument → List ForwardTestMember → List ForwardTestMember
unfolding same_instrument
insert_universe_members id quarter_start_utc [] members = members
insert_universe_members id quarter_start_utc (instrument ∷ instruments) members =
    let member : ForwardTestMember = record {
      forward_test_id = id;
      quarter_start_utc = quarter_start_utc;
      instrument = instrument;
    } in
    insert_universe_members id quarter_start_utc instruments
      (if any (same_member member) members then members else members ++ member ∷ [])

-- `if request.quarter_start_utc is not None`
abbrev pub add_members :
    ℕ → Option ℕ → List Instrument → List ForwardTestMember → List ForwardTestMember
add_members id none instruments members = members
add_members id (some quarter_start_utc) instruments members =
    insert_universe_members id quarter_start_utc instruments members

-- After the check of the capital, with the client ID. The transaction holds a lock on the table.
abbrev pub start_with_client : ForwardTestRequest → ℕ → String → Tables → Option ℕ → StartResult
start_with_client request created_at_utc account tables none = no_free_client_id
start_with_client request created_at_utc account tables (some client_id) =
    let id = tables.next_id in
    started
      (record (insert_forward_test request client_id created_at_utc tables) {
        members = add_members id request.quarter_start_utc request.members tables.members;
        ledger =
            write_capital_allocation tables.ledger account id request.allocated_capital_usd
              created_at_utc;
      })
      (new_forward_test request client_id created_at_utc id)

-- `client_ids` is the range of `count` client IDs from `first_client_id`.
unfoldable pub start_forward_test :
    ForwardTestRequest → ℕ → ℕ → ℕ → ℤ → String → Tables → StartResult
unfolding select_allocated_usd find_lowest_free_client_id insert_universe_members
    write_capital_allocation
start_forward_test request first_client_id count created_at_utc net_liquidation_usd account tables =
    let unallocated_usd = net_liquidation_usd -ℤ select_allocated_usd tables.rows in
    if ltb_ℤ unallocated_usd request.allocated_capital_usd
    then capital_too_large unallocated_usd
    else start_with_client request created_at_utc account tables
        (find_lowest_free_client_id first_client_id count tables.rows)
