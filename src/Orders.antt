-- ===== src/Orders.antt =====
-- Orders by hand: the paper account check (backend/src/atrade/paper_trading/paper_account_check.py),
-- the source of an order (backend/src/atrade/foundation/order_ref.py) and the cancel of an order
-- (backend/src/atrade/paper_trading/paper_orders.py). Python's `str.split` and `re` are parameters,
-- and IB Gateway is what it answers.
pub mod Checked
pub mod Canceled
use Prim.Native.String.{String}
use package.text.Mathlib.Text.{◌==◌ as str_eq, starts_with}
use atrade.Prelude.{
  ℕ, ◌==◌, Bool, true, false, not, ◌&&◌, List, [], ◌∷◌, Option, none, some, if◌then◌else◌, any,
  length,
}
use atrade.Ledger.Rules.{OpenOrder}

pub record Settings : Type 0 where
  pub trading_mode : String
  pub ibkr_paper_port : ℕ
  pub ibkr_account_id : Option String
  pub ibkr_web_client_id : ℕ

-- What the gateway connection answers. `read_open_orders` is `none` for a GatewayRequestError, and
-- `accepts_cancel` is false for one.
pub record Gateway : Type 0 where
  pub is_connected : Bool
  pub read_port : ℕ
  pub read_managed_accounts : List String
  pub read_open_orders : Option (List OpenOrder)
  pub accepts_cancel : ℕ → Bool

abbrev pub paper_account_prefix : String
paper_account_prefix = "DU"

-- The reasons of `find_failed_condition`.
pub data Failure : Type 0 where
  not_paper_mode : Failure
  wrong_port : Failure
  no_expected_account : Failure
  account_count : ℕ → Failure
  other_account : String → Failure
  not_paper_account : String → Failure

abbrev compare_account : String → String → Option Failure
compare_account expected actual =
    if not (str_eq actual expected)
    then some (other_account actual)
    else if not (starts_with actual paper_account_prefix)
    then some (not_paper_account actual)
    else none

-- `if len(actual_accounts) != 1`, and the conditions after it.
abbrev pub find_account_failure : String → List String → Option Failure
find_account_failure expected [] = some (account_count 0)
find_account_failure expected (actual ∷ []) = compare_account expected actual
find_account_failure expected (a ∷ b ∷ more) = some (account_count (length (a ∷ b ∷ more)))

abbrev find_expected_failure : Option String → List String → Option Failure
find_expected_failure none accounts = some no_expected_account
find_expected_failure (some expected) accounts = find_account_failure expected accounts

unfoldable pub find_failed_condition : Settings → Gateway → Option Failure
find_failed_condition settings gateway =
    if not (str_eq settings.trading_mode "paper")
    then some not_paper_mode
    else if not (gateway.read_port == settings.ibkr_paper_port)
    then some wrong_port
    else find_expected_failure settings.ibkr_account_id gateway.read_managed_accounts

-- `PaperAccountCheck` by its status.
pub data PaperAccountCheck : Type 0 where
  disconnected : PaperAccountCheck
  passed : (actual_accounts : List String) → PaperAccountCheck
  failed : Failure → (actual_accounts : List String) → PaperAccountCheck

abbrev pub check_result : Option Failure → List String → PaperAccountCheck
check_result none accounts = passed accounts
check_result (some failure) accounts = failed failure accounts

unfoldable pub check_paper_account : Settings → Gateway → PaperAccountCheck
unfolding find_failed_condition
check_paper_account settings gateway =
    if not gateway.is_connected
    then disconnected
    else check_result (find_failed_condition settings gateway) gateway.read_managed_accounts

-- `check.actual_accounts[0]` of a check that passed; `none` is a PaperAccountCheckError.
abbrev pub checked_account : PaperAccountCheck → Option String
checked_account disconnected = none
checked_account (passed []) = none
checked_account (passed (account ∷ _)) = some account
checked_account (failed _ _) = none

unfoldable pub require_paper_account : Settings → Gateway → Option String
unfolding check_paper_account
require_paper_account settings gateway = checked_account (check_paper_account settings gateway)

-- `OrderSource`: the forward test of an order, or an order by hand.
pub data OrderSource : Type 0 where
  from_by_hand : OrderSource
  from_forward_test : ℕ → OrderSource

-- The parts of an orderRef, and the number of a part `FT<digits>`.
pub record OrderRefs : Type 0 where
  pub split : String → List String
  pub match_tag : String → Option ℕ

unfoldable pub read_parts : OrderRefs → List String → OrderSource
read_parts refs [] = from_by_hand
read_parts refs (part ∷ parts) = elim (refs.match_tag part) [
  | some id ↦ from_forward_test id
  | none ↦ read_parts refs parts
]

unfoldable pub read_order_source : OrderRefs → String → OrderSource
unfolding read_parts
read_order_source refs order_ref = read_parts refs (refs.split order_ref)

abbrev pub is_by_hand : OrderSource → Bool
is_by_hand from_by_hand = true
is_by_hand (from_forward_test _) = false

unfoldable pub is_cancellable_by_hand : OrderRefs → OpenOrder → ℕ → Bool
unfolding read_order_source
is_cancellable_by_hand refs order web_client_id =
    is_by_hand (read_order_source refs order.order_ref) && order.client_id == web_client_id

-- A row of the table `manual_order`, as far as `has_manual_order` reads it.
pub record ManualOrder : Type 0 where
  pub account : String
  pub ibkr_order_id : ℕ

unfoldable pub has_manual_order : List ManualOrder → String → ℕ → Bool
has_manual_order orders account order_id =
    any (λ (o : ManualOrder). str_eq o.account account && o.ibkr_order_id == order_id) orders

-- What `cancel_order` answers.
pub data CancelResult : Type 0 where
  refused_by_check : CancelResult
  gateway_error : CancelResult
  no_open_order : CancelResult
  belongs_to_forward_test : ℕ → CancelResult
  sent_by_other_client : CancelResult
  not_sent_by_hand : CancelResult
  canceled : CancelResult

unfoldable pub keep_matching : String → ℕ → List OpenOrder → List OpenOrder
keep_matching account order_id [] = []
keep_matching account order_id (order ∷ orders) =
    let rest = keep_matching account order_id orders in
    if order.order_id == order_id && str_eq order.account account then order ∷ rest else rest

abbrev foreign_source : OrderSource → CancelResult
foreign_source from_by_hand = sent_by_other_client
foreign_source (from_forward_test id) = belongs_to_forward_test id

unfoldable pub raise_not_cancellable : OrderRefs → List OpenOrder → CancelResult
unfolding read_order_source
raise_not_cancellable refs [] = no_open_order
raise_not_cancellable refs (order ∷ _) = foreign_source (read_order_source refs order.order_ref)

abbrev pub has_cancellable : OrderRefs → ℕ → List OpenOrder → Bool
has_cancellable refs web_client_id =
    any (λ (o : OpenOrder). is_cancellable_by_hand refs o web_client_id)

-- `cancel_order` after the paper account check and the read of the open orders.
unfoldable pub cancel_open_order :
    OrderRefs → Settings → Gateway → List ManualOrder → String → List OpenOrder → ℕ → CancelResult
unfolding keep_matching raise_not_cancellable has_manual_order is_cancellable_by_hand
cancel_open_order refs settings gateway manual_orders account open_orders order_id =
    let matching_orders = keep_matching account order_id open_orders in
    if not (has_cancellable refs settings.ibkr_web_client_id matching_orders)
    then raise_not_cancellable refs matching_orders
    else if not (has_manual_order manual_orders account order_id)
    then not_sent_by_hand
    else if gateway.accepts_cancel order_id
    then canceled
    else gateway_error

-- The paper account check is done anew; the monitor keeps its result for the connection.
unfoldable pub cancel_order : OrderRefs → Settings → Gateway → List ManualOrder → ℕ → CancelResult
unfolding cancel_open_order require_paper_account
cancel_order refs settings gateway manual_orders order_id =
    elim (require_paper_account settings gateway) [
      | none ↦ refused_by_check
      | some account ↦ elim gateway.read_open_orders [
        | none ↦ gateway_error
        | some open_orders ↦
            cancel_open_order refs settings gateway manual_orders account open_orders order_id
      ]
    ]
