-- ===== src/Ledger.antt =====
-- The owner ledger of paper trading (backend/src/atrade/paper_trading/owner_ledger_store.py): its
-- entries, the table `owner_ledger_entry`, and the sums of the ledger. A `Decimal` is its number of
-- smallest units, so that sums are exact; the products and quotients of Python's decimal context
-- are a parameter.
pub mod Keys
pub mod Sums
pub mod Table
pub mod Start
pub mod Transfers
pub mod HandOver
pub mod Stopped
pub mod Rules
pub mod Refusals
use Prim.Native.String.{String}
use package.text.Mathlib.Text.{◌==◌ as str_eq}
use atrade.Prelude.{
  ℕ, ◌==◌, Bool, true, false, not, ◌&&◌, List, [], ◌∷◌, ◌++◌, Option, none, some, if◌then◌else◌,
}
use atrade.Prelude.Int.{ℤ, pos, ◌+ℤ◌, ◌-ℤ◌, ltb_ℤ, is_zero, min_ℤ}

-- backend/src/atrade/foundation/instrument.py
pub record Instrument : Type 0 where
  pub symbol : String
  pub exchange : String
  pub currency : String

pub data OwnerKind : Type 0 where
  by_hand_kind forward_test_kind : OwnerKind

pub record Owner : Type 0 where
  pub kind : OwnerKind
  pub forward_test_id : Option ℕ

-- `BY_HAND`
abbrev pub by_hand : Owner
by_hand = record { kind = by_hand_kind; forward_test_id = none }

pub data EntryKind : Type 0 where
  fill split_adjustment transfer ledger_start : EntryKind

-- `owner` holds the fields `owner_kind` and `forward_test_id`.
pub record LedgerEntry : Type 0 where
  pub owner : Owner
  pub entry_kind : EntryKind
  pub time_utc : ℕ
  pub symbol : Option String
  pub exchange : Option String
  pub currency : String
  pub quantity_change : ℤ
  pub price : Option ℤ
  pub cash_change : ℤ

pub record OwnerPosition : Type 0 where
  pub owner : Owner
  pub instrument : Instrument
  pub quantity : ℤ
  pub average_cost : Option ℤ

-- The products and quotients of `Decimal`, which round.
pub record Decimals : Type 0 where
  pub multiply : ℤ → ℤ → ℤ
  pub divide : ℤ → ℤ → ℤ

-- `==` of the frozen dataclasses.
abbrev pub same_kind : OwnerKind → OwnerKind → Bool
same_kind by_hand_kind by_hand_kind = true
same_kind forward_test_kind forward_test_kind = true
same_kind by_hand_kind forward_test_kind = false
same_kind forward_test_kind by_hand_kind = false

abbrev pub same_id : Option ℕ → Option ℕ → Bool
same_id none none = true
same_id (some a) (some b) = a == b
same_id none (some b) = false
same_id (some a) none = false

unfoldable pub same_owner : Owner → Owner → Bool
same_owner a b = same_kind a.kind b.kind && same_id a.forward_test_id b.forward_test_id

unfoldable pub same_instrument : Instrument → Instrument → Bool
same_instrument a b =
    str_eq a.symbol b.symbol && str_eq a.exchange b.exchange && str_eq a.currency b.currency

unfoldable pub has_same_symbol_and_currency : Instrument → Instrument → Bool
has_same_symbol_and_currency a b = str_eq a.symbol b.symbol && str_eq a.currency b.currency

-- The key of the dicts of `sum_owner_positions`.
abbrev pub Key : Type 0
Key = Owner × Instrument

unfoldable pub same_key : Key → Key → Bool
unfolding same_owner same_instrument
same_key (a, i) (b, j) = same_owner a b && same_instrument i j

-- A dict with its order of insertion; a missing key reads as `Decimal(0)`.
abbrev pub Amounts : Type 0
Amounts = List (Key × ℤ)

unfoldable pub get : Key → Amounts → ℤ
unfolding same_key
get k [] = pos 0
get k ((j, v) ∷ d) = if same_key k j then v else get k d

unfoldable pub put : Key → ℤ → Amounts → Amounts
unfolding same_key
put k v [] = (k, v) ∷ []
put k v ((j, w) ∷ d) = if same_key k j then (j, v) ∷ d else (j, w) ∷ put k v d

abbrev pub is_split : EntryKind → Bool
is_split split_adjustment = true
is_split fill = false
is_split transfer = false
is_split ledger_start = false

-- The instrument of an entry, if it is not a cash row.
abbrev pub instrument_of : LedgerEntry → Option Instrument
instrument_of e = elim e.symbol [
  | none ↦ none
  | some s ↦ elim e.exchange [
    | none ↦ none
    | some x ↦ some (record { symbol = s; exchange = x; currency = e.currency })
  ]
]

-- A sale keeps the average cost.
abbrev pub after_sale : Decimals → ℤ → ℤ → ℤ → ℤ
after_sale decimals quantity_change quantity cost =
    if ltb_ℤ quantity_change (pos 0) && ltb_ℤ (pos 0) quantity
    then cost
      -ℤ decimals.divide (decimals.multiply cost (min_ℤ (pos 0 -ℤ quantity_change) quantity))
          quantity
    else cost

-- The cost of a position after an entry.
unfoldable pub change_cost : Decimals → EntryKind → ℤ → Option ℤ → ℤ → ℤ → ℤ
change_cost decimals kind quantity_change none quantity cost =
    if is_split kind then cost else after_sale decimals quantity_change quantity cost
change_cost decimals kind quantity_change (some price) quantity cost =
    if ltb_ℤ (pos 0) quantity_change
    then cost +ℤ decimals.multiply quantity_change price
    else after_sale decimals quantity_change quantity cost

-- One round of the loop of `sum_owner_positions`, on the quantities and the costs.
unfoldable pub add_at : Decimals → LedgerEntry → Key → Amounts × Amounts → Amounts × Amounts
unfolding get put change_cost
add_at decimals e key (quantities, costs) =
    let quantity = get key quantities in
    let cost =
      change_cost decimals e.entry_kind e.quantity_change e.price quantity (get key costs) in
    let new_quantity = quantity +ℤ e.quantity_change in
    (put key new_quantity quantities, put key (if is_zero new_quantity then pos 0 else cost) costs)

unfoldable pub add_entry : Decimals → LedgerEntry → Amounts × Amounts → Amounts × Amounts
unfolding add_at
add_entry decimals e state = elim (instrument_of e) [
  | none ↦ state
  | some instrument ↦ add_at decimals e (e.owner, instrument) state
]

unfoldable pub add_entries : Decimals → List LedgerEntry → Amounts × Amounts → Amounts × Amounts
unfolding add_entry
add_entries decimals [] state = state
add_entries decimals (e ∷ entries) state = add_entries decimals entries (add_entry decimals e state)

-- The list at the end of `sum_owner_positions`.
unfoldable pub list_positions : Decimals → Amounts → Amounts → List OwnerPosition
unfolding get
list_positions decimals costs [] = []
list_positions decimals costs ((k, quantity) ∷ quantities) =
    let position : OwnerPosition = record {
      owner = k.0;
      instrument = k.1;
      quantity = quantity;
      average_cost =
          if ltb_ℤ (pos 0) quantity then some (decimals.divide (get k costs) quantity) else none;
    } in
    if is_zero quantity
    then list_positions decimals costs quantities
    else position ∷ list_positions decimals costs quantities

unfoldable pub sum_owner_positions : Decimals → List LedgerEntry → List OwnerPosition
unfolding add_entries list_positions
sum_owner_positions decimals entries =
    let (quantities, costs) = add_entries decimals entries ([], []) in
    list_positions decimals costs quantities

unfoldable pub sum_owner_cash_usd : List LedgerEntry → Owner → ℤ
unfolding same_owner
sum_owner_cash_usd [] owner = pos 0
sum_owner_cash_usd (e ∷ entries) owner =
    (if same_owner e.owner owner then e.cash_change else pos 0) +ℤ sum_owner_cash_usd entries owner
