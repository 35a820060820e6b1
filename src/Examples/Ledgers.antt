-- ===== src/Examples/Ledgers.antt =====
-- Runs of the owner ledger: an account with 100 shares and 5000 dollars, and a forward test.
use atrade.Prelude.{◌≡◌, refl, ◌↔◌, List, [], ◌∷◌, none, some, if◌then◌else◌}
use atrade.Prelude.Int.{ℤ, pos, negsuc, ◌+ℤ◌, ◌-ℤ◌, ◌*ℤ◌, ◌≤ℤ◌, is_zero}
use atrade.Ledger.{
  Instrument, by_hand, LedgerEntry, Decimals, Key, sum_owner_positions, sum_owner_cash_usd,
  same_owner,
}
use atrade.Ledger.Sums.{held, position_quantity, count_positions, sum_owner_positions-held}
use atrade.Ledger.Table.{
  Table, select_entries, PortfolioPosition, start_ledger, NewFill, insert_fill,
  select_owner_account, create_forward_test_owner, write_capital_allocation, transfer_to_by_hand,
}
use atrade.Ledger.Transfers.{moved}
use atrade.Ledger.Start.{reported, start_ledger-sums}
use atrade.Ledger.Stopped.{shares, cash, transfer_to_by_hand-moved, transfer_to_by_hand-twice}
use atrade.Ledger.Rules.{
  buy, sell, OpenOrder, Amounts, LedgerOrder, find_amount_usd, sum_open_sells, check_sell,
  check_buy,
}
use atrade.Ledger.Refusals.{check_sell-held, open_buys_amount, check_buy-cash}

abbrev pub decimals : Decimals
decimals = record { multiply = λ a b. a *ℤ b; divide = λ a b. a }

abbrev aapl : Instrument
aapl = record { symbol = "AAPL"; exchange = "NASDAQ"; currency = "USD" }

abbrev account_positions : List PortfolioPosition
account_positions =
    record {
      symbol = "AAPL";
      exchange = "NASDAQ";
      currency = "USD";
      quantity = pos 100;
      average_cost = pos 20;
    }
    ∷ []

abbrev started : Table
started = start_ledger [] "DU1" account_positions (pos 5000) 10

-- Forward test 3 gets 1000 dollars and buys 5 shares.
abbrev test_fill : NewFill
test_fill = record {
  owner = create_forward_test_owner 3;
  time_utc = 12;
  account = "DU1";
  instrument = aapl;
  quantity_change = pos 5;
  price = pos 30;
  commission = pos 1;
  cash_change_usd = negsuc 150;
  ibkr_execution_id = "E1";
  ibkr_order_id = 7;
}

abbrev table : Table
table = insert_fill (write_capital_allocation started "DU1" 3 (pos 1000) 11) test_fill

abbrev key : Key
key = (create_forward_test_owner 3, aapl)

abbrev entries : List LedgerEntry
entries = select_entries table "DU1"

sum_owner_positions-held_example :
    (position_quantity key (sum_owner_positions decimals entries) ≡ held key entries)
    × (count_positions key (sum_owner_positions decimals entries)
        ≡ (if is_zero (held key entries) then 0 else 1))
sum_owner_positions-held_example = sum_owner_positions-held decimals key entries

known : select_owner_account table (create_forward_test_owner 3) ≡ some "DU1"
unfolding select_owner_account create_forward_test_owner insert_fill write_capital_allocation
    start_ledger is_zero same_owner
known = refl

abbrev stopped : Table
stopped = transfer_to_by_hand decimals table 3 20

transfer_to_by_hand-moved_example :
    (shares stopped "DU1" by_hand aapl
      ≡ moved by_hand
          (create_forward_test_owner 3)
          (shares table "DU1" by_hand aapl)
          (shares table "DU1" (create_forward_test_owner 3) aapl))
    × (cash stopped "DU1" by_hand
        ≡ moved by_hand
            (create_forward_test_owner 3)
            (cash table "DU1" by_hand)
            (cash table "DU1" (create_forward_test_owner 3)))
    × (shares stopped "DU1" (create_forward_test_owner 3) aapl ≡ pos 0)
    × (cash stopped "DU1" (create_forward_test_owner 3) ≡ pos 0)
transfer_to_by_hand-moved_example =
    transfer_to_by_hand-moved decimals table 3 20 "DU1" by_hand aapl known

transfer_to_by_hand-twice_example : transfer_to_by_hand decimals stopped 3 21 ≡ stopped
transfer_to_by_hand-twice_example = transfer_to_by_hand-twice decimals table 3 20 21

start_ledger-sums_example :
    (held (by_hand, aapl) (select_entries started "DU1") ≡ reported aapl account_positions)
    × (sum_owner_cash_usd (select_entries started "DU1") by_hand ≡ pos 5000)
start_ledger-sums_example = start_ledger-sums [] "DU1" account_positions (pos 5000) 10 aapl refl

abbrev open_sell : OpenOrder
open_sell = record {
  order_id = 4;
  client_id = 1;
  account = "DU1";
  instrument = aapl;
  side = "SELL";
  quantity = pos 30;
  limit_price = some (pos 31);
  filled_quantity = pos 10;
  order_ref = "ATRADE-BY-HAND";
}

abbrev sell_order : LedgerOrder
sell_order = record {
  owner = by_hand;
  instrument = aapl;
  side = sell;
  quantity = pos 80;
  limit_price = none;
}

check_sell-held_example :
    (check_sell decimals entries (open_sell ∷ []) sell_order ≡ none)
    ↔ (pos 80 +ℤ sum_open_sells aapl (open_sell ∷ []) ≤ℤ held (by_hand, aapl) entries)
check_sell-held_example = check_sell-held decimals entries (open_sell ∷ []) sell_order

abbrev amounts : Amounts
amounts = record {
  now_utc = 0;
  read_historical_bars = λ i p r. some (pos 30 ∷ []);
  read_exchange_rate = λ c d. none;
  watchlist_instruments = [];
}

abbrev buy_order : LedgerOrder
buy_order = record {
  owner = by_hand;
  instrument = aapl;
  side = buy;
  quantity = pos 10;
  limit_price = none;
}

abbrev open_buy : OpenOrder
open_buy = record open_sell { side = "BUY" }

accepted_buy : check_buy decimals amounts entries (open_buy ∷ []) buy_order ≡ some none
unfolding check_buy select_entries insert_fill write_capital_allocation start_ledger
    sum_owner_cash_usd ◌*ℤ◌ ◌-ℤ◌ is_zero ◌+ℤ◌
accepted_buy = refl

check_buy-cash_example :
    (amount : ℤ) × (open_amount : ℤ) × (find_amount_usd decimals amounts aapl (pos 10) none
      ≡ some amount)
    × (open_buys_amount decimals amounts entries buy_order (open_buy ∷ []) ≡ some open_amount)
    × (amount +ℤ open_amount ≤ℤ sum_owner_cash_usd entries by_hand)
check_buy-cash_example =
    check_buy-cash decimals amounts entries buy_order (open_buy ∷ []) accepted_buy
