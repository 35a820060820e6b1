-- ===== src/Examples/Brokers.antt =====
-- Runs of the paper account check, the cancel of an order, the link to IBKR and a stock split.
use atrade.Prelude.{ℕ, ◌≡◌, refl, ◌↔◌, true, List, [], ◌∷◌, none, some}
use atrade.Prelude.Int.{pos}
use atrade.Ledger.Rules.{OpenOrder}
use atrade.Orders.{
  Settings, Gateway, require_paper_account, OrderRefs, ManualOrder, canceled, cancel_order,
}
use atrade.Orders.Checked.{IsPaperAccount, require_paper_account_lem}
use atrade.Orders.Canceled.{CanCancel, cancel_order-CanCancel}
use atrade.Gateway.{Connection, seconds}
use atrade.Gateway.Retries.{passed, LetsThrough, passed-LetsThrough}

abbrev settings : Settings
settings = record {
  trading_mode = "paper";
  ibkr_paper_port = 4002;
  ibkr_account_id = some "DU1";
  ibkr_web_client_id = 1;
}

abbrev order : OpenOrder
order = record {
  order_id = 4;
  client_id = 1;
  account = "DU1";
  instrument = record { symbol = "AAPL"; exchange = "NASDAQ"; currency = "USD" };
  side = "SELL";
  quantity = pos 30;
  limit_price = none;
  filled_quantity = pos 0;
  order_ref = "ATRADE-BY-HAND";
}

abbrev gateway : Gateway
gateway = record {
  is_connected = true;
  read_port = 4002;
  read_managed_accounts = "DU1" ∷ [];
  read_open_orders = some (order ∷ []);
  accepts_cancel = λ i. true;
}

require_paper_account_lem_example :
    (require_paper_account settings gateway ≡ some "DU1") ↔ IsPaperAccount settings gateway "DU1"
require_paper_account_lem_example = require_paper_account_lem settings gateway "DU1"

abbrev refs : OrderRefs
refs = record { split = λ s. s ∷ []; match_tag = λ s. none }

abbrev manual_orders : List ManualOrder
manual_orders = record { account = "DU1"; ibkr_order_id = 4 } ∷ []

order_canceled : cancel_order refs settings gateway manual_orders 4 ≡ canceled
unfolding cancel_order
order_canceled = refl

cancel_order-CanCancel_example : CanCancel refs settings gateway manual_orders 4
cancel_order-CanCancel_example =
    cancel_order-CanCancel refs settings gateway manual_orders 4 order_canceled

abbrev lost : Connection
lost = record {
  is_connected = true;
  connection_number = 1;
  synchronized = true;
  ibkr_link_lost = true;
  ibkr_link_retry_at = seconds 60;
  next_ibkr_link_check_at = seconds 60;
}

abbrev times : List ℕ
times = seconds 10 ∷ seconds 61 ∷ seconds 62 ∷ seconds 130 ∷ []

passed-LetsThrough_example : LetsThrough (seconds 60) times (passed lost times)
passed-LetsThrough_example = passed-LetsThrough lost times refl refl
