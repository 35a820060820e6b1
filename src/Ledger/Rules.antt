-- ===== src/Ledger/Rules.antt =====
-- The order rules of the owner ledger (backend/src/atrade/paper_trading/manual_order_ledger.py) and
-- the source of an order (backend/src/atrade/foundation/order_ref.py). IB Gateway, the watchlist and
-- Python's text functions are parameters. An outer `none` is a GatewayRequestError.
use Prim.Native.String.{String}
use package.text.Mathlib.Text.{◌==◌ as str_eq}
use atrade.Prelude.{
  ℕ, ◌-◌, ◌*◌, Bool, true, false, not, ◌&&◌, List, [], ◌∷◌, ◌++◌, Option, none, some, map,
  if◌then◌else◌, ◌>>=◌,
}
use atrade.Prelude.Int.{ℤ, pos, ◌+ℤ◌, ◌-ℤ◌, leb_ℤ}
use atrade.Bar.{BarPeriod, TimeRange, seconds_per_day, microseconds}
use atrade.Ranges.{range}
use atrade.Ledger.{
  Instrument, Owner, LedgerEntry, OwnerPosition, Decimals, same_owner, same_instrument,
  has_same_symbol_and_currency, sum_owner_positions, sum_owner_cash_usd,
}

pub data OrderSide : Type 0 where
  buy sell : OrderSide

-- An open order as IBKR reports it (backend/src/atrade/ibkr/orders.py). The side is a text.
pub record OpenOrder : Type 0 where
  pub order_id : ℕ
  pub client_id : ℕ
  pub account : String
  pub instrument : Instrument
  pub side : String
  pub quantity : ℤ
  pub limit_price : Option ℤ
  pub filled_quantity : ℤ
  pub order_ref : String

-- What `OrderAmounts` asks: the closes of historical bars, oldest first, and the exchange rates of
-- IBKR; the instruments of the watchlist.
pub record Amounts : Type 0 where
  pub now_utc : ℕ
  pub read_historical_bars : Instrument → BarPeriod → TimeRange → Option (List ℤ)
  pub read_exchange_rate : String → String → Option ℤ
  pub watchlist_instruments : List Instrument

pub record LedgerOrder : Type 0 where
  pub owner : Owner
  pub instrument : Instrument
  pub side : OrderSide
  pub quantity : ℤ
  pub limit_price : Option ℤ

-- The rule of a refusal, with the amounts of its text.
pub data OrderRefusal : Type 0 where
  sell_more_than_position : (position open_sell_quantity quantity : ℤ) → OrderRefusal
  buy_more_than_cash : (cash open_buy_amount amount : ℤ) → OrderRefusal
  -- Also the rule `buy_more_than_cash`, for an open market order without a known exchange.
  unknown_exchange : (symbol : String) → OrderRefusal
  ledger_not_started : OrderRefusal
  split_check_needed : (symbol : String) → OrderRefusal

-- `SMART_ROUTING_EXCHANGE`
abbrev pub smart_routing_exchange : String
smart_routing_exchange = "SMART"

abbrev pub usd : String
usd = "USD"

-- `LAST_CLOSE_DAYS`
abbrev pub last_close_days : ℕ
last_close_days = 10

abbrev pub last_close : List ℤ → Option ℤ
last_close [] = none
last_close (x ∷ []) = some x
last_close (x ∷ y ∷ xs) = last_close (y ∷ xs)

abbrev pub is_none : {A : Type 0} → Option A → Bool
is_none none = true
is_none (some _) = false

unfoldable pub convert_to_usd : Decimals → Amounts → ℤ → String → Option ℤ
convert_to_usd decimals amounts amount currency =
    if str_eq currency usd
    then some amount
    else (do rate ← amounts.read_exchange_rate currency usd; some (decimals.multiply amount rate))

unfoldable pub read_last_close : Amounts → Instrument → Option ℤ
read_last_close amounts instrument = do
  bars ←
      amounts.read_historical_bars instrument BarPeriod.one_day
        (range (amounts.now_utc - last_close_days * seconds_per_day * microseconds) amounts.now_utc)
  last_close bars

-- `limit_price if limit_price is not None else await self.read_last_close(instrument)`
abbrev pub price_of : Amounts → Instrument → Option ℤ → Option ℤ
price_of amounts instrument none = read_last_close amounts instrument
price_of amounts instrument (some price) = some price

unfoldable pub find_amount_usd : Decimals → Amounts → Instrument → ℤ → Option ℤ → Option ℤ
unfolding convert_to_usd read_last_close
find_amount_usd decimals amounts instrument quantity limit_price = do
  price ← price_of amounts instrument limit_price
  convert_to_usd decimals amounts (decimals.multiply quantity price) instrument.currency

-- `next((known for known in known_instruments if …), None)`
unfoldable pub first_known : Instrument → List Instrument → Option Instrument
unfolding has_same_symbol_and_currency
first_known instrument [] = none
first_known instrument (known ∷ more) =
    if has_same_symbol_and_currency known instrument
      && not (str_eq known.exchange smart_routing_exchange)
    then some known
    else first_known instrument more

unfoldable pub find_order_instrument :
    Decimals → Amounts → List LedgerEntry → OpenOrder → LedgerOrder → Option Instrument
unfolding first_known sum_owner_positions
find_order_instrument decimals amounts entries open_order order =
    if not (str_eq open_order.instrument.exchange smart_routing_exchange)
    then some open_order.instrument
    else if not (is_none open_order.limit_price)
    then some open_order.instrument
    else first_known open_order.instrument (
        order.instrument
          ∷ map (λ (p : OwnerPosition). p.instrument) (sum_owner_positions decimals entries)
        ++ amounts.watchlist_instruments)

-- The amount of the open buy orders, or the symbol of the order that has no known exchange.
pub data OpenBuys : Type 0 where
  summed : ℤ → OpenBuys
  unknown : (symbol : String) → OpenBuys

-- The loop of `check_buy`.
unfoldable pub sum_open_buys :
    Decimals → Amounts → List LedgerEntry → LedgerOrder → List OpenOrder → ℤ → Option OpenBuys
unfolding find_order_instrument find_amount_usd
sum_open_buys decimals amounts entries order [] total = some (summed total)
sum_open_buys decimals amounts entries order (open_order ∷ orders) total =
    if str_eq open_order.side "BUY"
    then elim (find_order_instrument decimals amounts entries open_order order) [
      | none ↦ some (unknown open_order.instrument.symbol)
      | some instrument ↦
          find_amount_usd decimals amounts instrument
            (open_order.quantity -ℤ open_order.filled_quantity) open_order.limit_price
          >>= λ amount. sum_open_buys decimals amounts entries order orders (total +ℤ amount)
    ]
    else sum_open_buys decimals amounts entries order orders total

-- The end of `check_buy`.
abbrev pub compare_cash : ℤ → ℤ → ℤ → Option OrderRefusal
compare_cash cash open_buy_amount amount =
    if leb_ℤ amount (cash -ℤ open_buy_amount)
    then none
    else some (buy_more_than_cash cash open_buy_amount amount)

unfoldable pub check_buy_after :
    Decimals → Amounts → List LedgerEntry → LedgerOrder → OpenBuys → Option (Option OrderRefusal)
unfolding find_amount_usd sum_owner_cash_usd
check_buy_after decimals amounts entries order (unknown symbol) =
    some (some (unknown_exchange symbol))
check_buy_after decimals amounts entries order (summed open_buy_amount) = do
  amount ← find_amount_usd decimals amounts order.instrument order.quantity order.limit_price
  some (compare_cash (sum_owner_cash_usd entries order.owner) open_buy_amount amount)

unfoldable pub check_buy :
    Decimals
    → Amounts
    → List LedgerEntry
    → List OpenOrder
    → LedgerOrder
    → Option (Option OrderRefusal)
unfolding sum_open_buys check_buy_after
check_buy decimals amounts entries owner_open_orders order =
    sum_open_buys decimals amounts entries order owner_open_orders (pos 0)
    >>= check_buy_after decimals amounts entries order

-- The two sums of `check_sell`.
unfoldable pub find_position : Owner → Instrument → List OwnerPosition → ℤ
find_position owner instrument [] = pos 0
find_position owner instrument (p ∷ positions) =
    (if same_owner p.owner owner && same_instrument p.instrument instrument
      then p.quantity
      else pos 0)
    +ℤ find_position owner instrument positions

unfoldable pub sum_open_sells : Instrument → List OpenOrder → ℤ
unfolding has_same_symbol_and_currency
sum_open_sells instrument [] = pos 0
sum_open_sells instrument (o ∷ orders) =
    (if str_eq o.side "SELL" && has_same_symbol_and_currency o.instrument instrument
      then o.quantity -ℤ o.filled_quantity
      else pos 0)
    +ℤ sum_open_sells instrument orders

unfoldable pub check_sell :
    Decimals → List LedgerEntry → List OpenOrder → LedgerOrder → Option OrderRefusal
unfolding find_position sum_open_sells sum_owner_positions
check_sell decimals entries owner_open_orders order =
    let position =
      find_position order.owner order.instrument (sum_owner_positions decimals entries) in
    let open_sell_quantity = sum_open_sells order.instrument owner_open_orders in
    if leb_ℤ order.quantity (position -ℤ open_sell_quantity)
    then none
    else some (sell_more_than_position position open_sell_quantity order.quantity)

unfoldable pub check_owner_order :
    Decimals
    → Amounts
    → List LedgerEntry
    → List OpenOrder
    → LedgerOrder
    → Option (Option OrderRefusal)
unfolding check_sell check_buy
check_owner_order decimals amounts entries owner_open_orders order = elim order.side [
  | sell ↦ some (check_sell decimals entries owner_open_orders order)
  | buy ↦ check_buy decimals amounts entries owner_open_orders order
]
