-- ===== src/Examples/OrdersByHand.antt =====
-- Runs of the check of an order by hand, with 100 shares at the start and a fill of 10 shares.
use Prim.Native.String.{String}
use atrade.Prelude.{length, ◌+◌, ◌≡◌, refl, false, List, [], ◌∷◌, none, some}
use atrade.Prelude.Int.{pos, ◌+ℤ◌, ◌-ℤ◌, ◌*ℤ◌, ◌≤ℤ◌, is_zero}
use atrade.Ledger.{by_hand}
use atrade.Ledger.Sums.{held}
use atrade.Ledger.Table.{Table, select_entries, start_ledger}
use atrade.Ledger.Rules.{OrderSide, OpenOrder, OrderRefusal, sum_open_sells}
use atrade.Orders.{OrderRefs}
use atrade.SplitChecks.{SplitCheck}
use atrade.ByHand.{
  Execution, OrderByHand, Answers, Tables, check_order, record_executions, select_own_orders,
}
use atrade.ByHand.Recorded.{record_executions-again}
use atrade.ByHand.NeededChecks.{IsSplitNeeded}
use atrade.ByHand.Refused.{check_order-refused, check_order-held}
use atrade.Examples.Ledgers.{decimals}
use atrade.Examples.StockSplits.{stock, tables, once}

abbrev refs : OrderRefs
refs = record { split = λ s. s ∷ []; match_tag = λ s. none }

abbrev bought : Execution
bought = record {
  execution_id = "0001";
  order_id = 4;
  client_id = 7;
  account = "DU1";
  time_utc = 50;
  side = "BOT";
  quantity = pos 10;
  price = pos 30;
  commission = pos 1;
  is_held = false;
  order_ref = "by hand";
  symbol = "AAPL";
  currency = "USD";
}

abbrev answers : Answers
answers = record {
  now_utc = 100;
  web_client_id = 7;
  cash_usd = none;
  positions = [];
  executions = some (bought ∷ []);
  open_orders = some [];
  amounts = record {
    now_utc = 100;
    read_historical_bars = λ i p r. none;
    read_exchange_rate = λ a b. none;
    watchlist_instruments = [];
  };
}

abbrev by_hand_tables : List SplitCheck → Tables
by_hand_tables checks = record {
  ledger = tables.ledger;
  manual_orders = record { account = "DU1"; instrument = stock; ibkr_order_id = 4 } ∷ [];
  checks = checks;
}

abbrev sell_all : OrderByHand
sell_all = record {
  instrument = stock;
  side = OrderSide.sell;
  quantity = pos 110;
  limit_price = none;
}

passes : (check_order decimals answers "DU1" refs (by_hand_tables []) sell_all).1 ≡ some none
unfolding check_order start_ledger ◌+ℤ◌ ◌-ℤ◌ ◌*ℤ◌ is_zero
passes = refl

check_order-held_example :
    (open_orders : List OpenOrder) × (answers.open_orders ≡ some open_orders)
    × (pos 110 +ℤ sum_open_sells stock (select_own_orders decimals answers "DU1" refs open_orders)
        ≤ℤ held
            (by_hand, stock)
            (select_entries
              (check_order decimals answers "DU1" refs (by_hand_tables []) sell_all).0
              "DU1"))
check_order-held_example =
    check_order-held decimals answers "DU1" refs (by_hand_tables []) sell_all refl passes

check_order-refused_example :
    (IsSplitNeeded "DU1" stock once.checks
      → (r : OrderRefusal) × ((check_order decimals answers "DU1" refs
            (by_hand_tables once.checks)
            sell_all).1
          ≡ some (some r)))
    × ((symbol : String)
        → (check_order decimals answers "DU1" refs (by_hand_tables once.checks) sell_all).1
          ≡ some (some (OrderRefusal.split_check_needed symbol))
        → IsSplitNeeded "DU1" stock once.checks)
check_order-refused_example =
    check_order-refused decimals answers "DU1" refs (by_hand_tables once.checks) sell_all

-- A fill before the start of the ledger is in the start positions, and another client has its own.
abbrev executions : List Execution
executions =
    bought
    ∷ record bought { execution_id = "0002"; client_id = 8 }
    ∷ record bought { time_utc = 5 }
    ∷ []

abbrev recorded : Table
recorded =
    record_executions decimals answers "DU1" (by_hand_tables []).manual_orders tables.ledger
      (some 10) executions tables.ledger

records_one : length recorded ≡ length tables.ledger + 1
unfolding record_executions start_ledger ◌-ℤ◌ ◌*ℤ◌ is_zero
records_one = refl

record_executions-again_example :
    record_executions decimals answers "DU1"
      (by_hand_tables []).manual_orders
      recorded
      (some 10)
      executions
      recorded
    ≡ recorded
record_executions-again_example =
    record_executions-again decimals answers "DU1" (some 10) (by_hand_tables []).manual_orders
      executions tables.ledger
