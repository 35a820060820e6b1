-- ===== src/ByHand.antt =====
-- The owner ledger of "By hand" in the Web process (`ManualOrderLedger` of
-- backend/src/atrade/paper_trading/manual_order_ledger.py): its start, the record of the fills of orders
-- by hand, and the check of a new order. What the paper account monitor and IB Gateway answer during a
-- call is an argument.
pub mod NeededChecks
pub mod Refused
pub mod Recorded
use Prim.Native.String.{String}
use package.text.Mathlib.Text.{◌==◌ as str_eq}
use atrade.Prelude.{
  ℕ, ◌==◌, ltb, Bool, true, false, not, ◌&&◌, ◌||◌, List, [], ◌∷◌, any, Option, none, some,
  if◌then◌else◌, ◌>>=◌,
}
use atrade.Prelude.Int.{ℤ, pos, ◌-ℤ◌}
use atrade.Ledger.{
  Instrument, Owner, by_hand, EntryKind, LedgerEntry, Decimals, same_owner, same_instrument,
}
use atrade.Ledger.Table.{
  Row, Table, PortfolioPosition, NewFill, select_entries, start_ledger, insert_fill, same_execution,
  find_ledger_start_utc,
}
use atrade.Ledger.Rules.{
  OrderSide, OpenOrder, Amounts, LedgerOrder, OrderRefusal, convert_to_usd, check_owner_order,
}
use atrade.Orders.{OrderRefs, read_order_source, is_by_hand}
use atrade.SplitChecks.{SplitCheck, is_in_state}

-- One fill of reqExecutions (backend/src/atrade/ibkr/orders.py).
pub record Execution : Type 0 where
  pub execution_id : String
  pub order_id : ℕ
  pub client_id : ℕ
  pub account : String
  pub time_utc : ℕ
  pub side : String
  pub quantity : ℤ
  pub price : ℤ
  pub commission : ℤ
  pub is_held : Bool
  pub order_ref : String
  pub symbol : String
  pub currency : String

-- A row of `manual_order`, as far as this code reads it.
pub record OrderRow : Type 0 where
  pub account : String
  pub instrument : Instrument
  pub ibkr_order_id : ℕ

pub record OrderByHand : Type 0 where
  pub instrument : Instrument
  pub side : OrderSide
  pub quantity : ℤ
  pub limit_price : Option ℤ

-- The cash value of `read_balance` (`none` without one), the portfolio, and the answers of IB Gateway;
-- `none` of an answer is a GatewayRequestError.
pub record Answers : Type 0 where
  pub now_utc : ℕ
  pub web_client_id : ℕ
  pub cash_usd : Option ℤ
  pub positions : List PortfolioPosition
  pub executions : Option (List Execution)
  pub open_orders : Option (List OpenOrder)
  pub amounts : Amounts

-- The tables `owner_ledger_entry`, `manual_order` and `split_check`.
pub record Tables : Type 0 where
  pub ledger : Table
  pub manual_orders : List OrderRow
  pub checks : List SplitCheck

abbrev pub start_with : Answers → String → Table → Option ℤ → Table × Option (List LedgerEntry)
start_with answers account table none = (table, none)
start_with answers account table (some cash_usd) =
    let started = start_ledger table account answers.positions cash_usd answers.now_utc in
    (started, some (select_entries started account))

abbrev pub entries_or_start :
    Answers → String → Table → List LedgerEntry → Table × Option (List LedgerEntry)
entries_or_start answers account table [] = start_with answers account table answers.cash_usd
entries_or_start answers account table (e ∷ entries) = (table, some (e ∷ entries))

-- The table afterwards, and the entries.
unfoldable pub read_entries : Answers → String → Table → Table × Option (List LedgerEntry)
unfolding select_entries start_ledger
read_entries answers account table =
    entries_or_start answers account table (select_entries table account)

-- `orders.get(order_id)`: of two rows with the same id, the dictionary has the last one.
unfoldable pub get_order : String → ℕ → List OrderRow → Option OrderRow
get_order account order_id [] = none
get_order account order_id (order ∷ orders) = elim (get_order account order_id orders) [
  | some later ↦ some later
  | none ↦
      if order.ibkr_order_id == order_id && str_eq order.account account then some order else none
]

abbrev is_fill_or_split : EntryKind → Bool
is_fill_or_split EntryKind.fill = true
is_fill_or_split EntryKind.split_adjustment = true
is_fill_or_split EntryKind.ledger_start = false
is_fill_or_split EntryKind.transfer = false

-- `execution_id in recorded_ids`, the ids of `OWNER_FILLS_QUERY` for "By hand".
unfoldable pub is_recorded : Table → String → Bool
unfolding same_owner
is_recorded table execution_id =
    any
      (λ (row : Row).
        is_fill_or_split row.entry.entry_kind
        && (same_owner row.entry.owner by_hand
            && same_execution execution_id row.ibkr_execution_id))
      table

abbrev is_before : ℕ → Option ℕ → Bool
is_before time_utc none = false
is_before time_utc (some start_utc) = ltb time_utc start_utc

-- `BOUGHT_SIDE`
abbrev pub bought_side : String
bought_side = "BOT"

module _ (decimals : Decimals) (answers : Answers) (account : String) where
  abbrev pub new_fill : Instrument → Execution → ℤ → ℤ → NewFill
  new_fill instrument execution quantity_change cash_change_usd = record {
    owner = by_hand;
    time_utc = execution.time_utc;
    account = account;
    instrument = instrument;
    quantity_change = quantity_change;
    price = execution.price;
    commission = execution.commission;
    cash_change_usd = cash_change_usd;
    ibkr_execution_id = execution.execution_id;
    ibkr_order_id = execution.order_id;
  }

  unfoldable pub build_fill : Instrument → Execution → Option NewFill
  unfolding convert_to_usd
  build_fill instrument execution =
      let quantity_change =
        if str_eq execution.side bought_side
        then execution.quantity
        else pos 0 -ℤ execution.quantity in
      let cash_change =
        decimals.multiply (pos 0 -ℤ quantity_change) execution.price -ℤ execution.commission in
      convert_to_usd decimals answers.amounts cash_change instrument.currency
      >>= (λ cash_change_usd. some (new_fill instrument execution quantity_change cash_change_usd))

  abbrev pub insert_built : Table → Option NewFill → Table
  insert_built table none = table
  insert_built table (some fill) = insert_fill table fill

  -- One execution that is not recorded yet, with its order.
  abbrev pub record_with : Option ℕ → Execution → Table → Option OrderRow → Table
  record_with start_utc execution table none = table
  record_with start_utc execution table (some order) =
      if not (str_eq execution.account account)
        || not (execution.client_id == answers.web_client_id)
        || is_before execution.time_utc start_utc
      then table
      else insert_built table (build_fill order.instrument execution)

  -- The loop. `recorded` is the table before it.
  unfoldable pub record_executions :
      List OrderRow → Table → Option ℕ → List Execution → Table → Table
  unfolding get_order is_recorded build_fill insert_fill
  record_executions orders recorded start_utc [] table = table
  record_executions orders recorded start_utc (execution ∷ executions) table =
      record_executions orders recorded start_utc executions (
        if is_recorded recorded execution.execution_id
        then table
        else record_with start_utc execution table (get_order account execution.order_id orders))

  abbrev pub record_answer :
      List OrderRow → Table → Option (List LedgerEntry) → Option (List Execution) → Table
  record_answer orders table none executions = table
  record_answer orders table (some entries) none = table
  record_answer orders table (some entries) (some executions) =
      record_executions orders table (find_ledger_start_utc entries) executions table

  unfoldable pub record_fills : Tables → Table
  unfolding read_entries record_executions find_ledger_start_utc
  record_fills tables =
      let (table, entries) = read_entries answers account tables.ledger in
      record_answer tables.manual_orders table entries answers.executions

  module _ (refs : OrderRefs) where
    unfoldable pub select_own_orders : List OpenOrder → List OpenOrder
    unfolding read_order_source
    select_own_orders [] = []
    select_own_orders (order ∷ orders) =
        let rest = select_own_orders orders in
        if str_eq order.account account && is_by_hand (read_order_source refs order.order_ref)
        then order ∷ rest
        else rest

    abbrev pub owner_order : OrderByHand → LedgerOrder
    owner_order order = record {
      owner = by_hand;
      instrument = order.instrument;
      side = order.side;
      quantity = order.quantity;
      limit_price = order.limit_price;
    }

    -- With the entries of the second `read_entries`. An outer `none` is a GatewayRequestError.
    abbrev pub check_with :
        Tables → OrderByHand → Option (List LedgerEntry) → Option (Option OrderRefusal)
    check_with tables order none = some (some OrderRefusal.ledger_not_started)
    check_with tables order (some entries) =
        if any (is_in_state account order.instrument) tables.checks
        then some (some (OrderRefusal.split_check_needed order.instrument.symbol))
        else answers.open_orders >>= (λ open_orders.
          check_owner_order decimals answers.amounts entries (select_own_orders open_orders)
            (owner_order order))

    -- The ledger afterwards, and the answer.
    unfoldable pub check_order : Tables → OrderByHand → Table × Option (Option OrderRefusal)
    unfolding record_fills read_entries is_in_state select_own_orders check_owner_order
    check_order tables order =
        let (table, entries) = read_entries answers account (record_fills tables) in
        (table, check_with tables order entries)
