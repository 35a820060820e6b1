-- ===== src/Ledger/Table.antt =====
-- The table `owner_ledger_entry` and the statements that write it
-- (backend/src/atrade/paper_trading/owner_ledger_store.py), and what a forward test moves
-- (backend/src/atrade/paper_trading/forward_test_ledger.py). The table is the list of its rows in the
-- order of their ids; a function that writes gives the new table.
use Prim.Native.String.{String}
use package.text.Mathlib.Text.{◌==◌ as str_eq}
use atrade.Prelude.{
  ℕ, min, Bool, false, List, [], ◌∷◌, ◌++◌, Option, none, some, if◌then◌else◌, any,
}
use atrade.Prelude.Int.{ℤ, pos, ◌-ℤ◌, is_zero}
use atrade.Ledger.{
  Instrument, forward_test_kind, Owner, by_hand, EntryKind, fill, transfer, ledger_start,
  LedgerEntry, OwnerPosition, Decimals, same_owner, sum_owner_positions, sum_owner_cash_usd,
}

pub record Row : Type 0 where
  pub account : String
  pub entry : LedgerEntry
  pub commission : Option ℤ
  pub ibkr_execution_id : Option String
  pub ibkr_order_id : Option ℕ
  pub stock_split_id : Option ℕ

abbrev pub Table : Type 0
Table = List Row

unfoldable pub select_entries : Table → String → List LedgerEntry
select_entries [] account = []
select_entries (row ∷ rows) account =
    if str_eq row.account account
    then row.entry ∷ select_entries rows account
    else select_entries rows account

-- A position that IBKR reports of the account.
pub record PortfolioPosition : Type 0 where
  pub symbol : String
  pub exchange : String
  pub currency : String
  pub quantity : ℤ
  pub average_cost : ℤ

-- `LEDGER_CASH_CURRENCY`
abbrev pub ledger_cash_currency : String
ledger_cash_currency = "USD"

-- A row of an entry that is no fill.
abbrev pub plain_row : String → LedgerEntry → Row
plain_row account entry = record {
  account = account;
  entry = entry;
  commission = none;
  ibkr_execution_id = none;
  ibkr_order_id = none;
  stock_split_id = none;
}

abbrev pub cash_entry : Owner → EntryKind → ℕ → ℤ → LedgerEntry
cash_entry owner kind time_utc cash = record {
  owner = owner;
  entry_kind = kind;
  time_utc = time_utc;
  symbol = none;
  exchange = none;
  currency = ledger_cash_currency;
  quantity_change = pos 0;
  price = none;
  cash_change = cash;
}

abbrev pub position_entry : Owner → EntryKind → ℕ → Instrument → ℤ → Option ℤ → LedgerEntry
position_entry owner kind time_utc instrument quantity price = record {
  owner = owner;
  entry_kind = kind;
  time_utc = time_utc;
  symbol = some instrument.symbol;
  exchange = some instrument.exchange;
  currency = instrument.currency;
  quantity_change = quantity;
  price = price;
  cash_change = pos 0;
}

abbrev pub instrument_of_position : PortfolioPosition → Instrument
instrument_of_position p = record {
  symbol = p.symbol;
  exchange = p.exchange;
  currency = p.currency;
}

abbrev start_entry : ℕ → PortfolioPosition → LedgerEntry
start_entry time_utc p =
    position_entry by_hand ledger_start time_utc (instrument_of_position p) p.quantity
      (some p.average_cost)

-- The rows of the positions in `start_ledger`: those of 0 shares are left out.
unfoldable pub start_rows : String → List PortfolioPosition → ℤ → ℕ → Table
start_rows account [] cash_usd time_utc =
    plain_row account (cash_entry by_hand ledger_start time_utc cash_usd) ∷ []
start_rows account (p ∷ positions) cash_usd time_utc =
    let rest = start_rows account positions cash_usd time_utc in
    if is_zero p.quantity then rest else plain_row account (start_entry time_utc p) ∷ rest

-- `SELECT 1 FROM owner_ledger_entry WHERE account = …`
abbrev pub has_account : String → Table → Bool
has_account account rows = any (λ (row : Row). str_eq row.account account) rows

unfoldable pub start_ledger : Table → String → List PortfolioPosition → ℤ → ℕ → Table
unfolding start_rows
start_ledger table account positions cash_usd time_utc =
    if has_account account table
    then table
    else table ++ start_rows account positions cash_usd time_utc

pub record NewFill : Type 0 where
  pub owner : Owner
  pub time_utc : ℕ
  pub account : String
  pub instrument : Instrument
  pub quantity_change : ℤ
  pub price : ℤ
  pub commission : ℤ
  pub cash_change_usd : ℤ
  pub ibkr_execution_id : String
  pub ibkr_order_id : ℕ

abbrev fill_row : NewFill → Row
fill_row f = record {
  account = f.account;
  entry =
      record (position_entry f.owner fill f.time_utc f.instrument f.quantity_change
        (some f.price)) { cash_change = f.cash_change_usd };
  commission = some f.commission;
  ibkr_execution_id = some f.ibkr_execution_id;
  ibkr_order_id = some f.ibkr_order_id;
  stock_split_id = none;
}

abbrev pub same_execution : String → Option String → Bool
same_execution i none = false
same_execution i (some j) = str_eq i j

abbrev pub has_execution : String → Table → Bool
has_execution i rows = any (λ (row : Row). same_execution i row.ibkr_execution_id) rows

-- `INSERT … ON CONFLICT (ibkr_execution_id) … DO NOTHING`
unfoldable pub insert_fill : Table → NewFill → Table
insert_fill table f =
    if has_execution f.ibkr_execution_id table then table else table ++ fill_row f ∷ []

-- The first account of an owner.
unfoldable pub select_owner_account : Table → Owner → Option String
select_owner_account [] owner = none
select_owner_account (row ∷ rows) owner =
    if same_owner row.entry.owner owner then some row.account else select_owner_account rows owner

unfoldable pub insert_cash_transfer : Table → String → Owner → Owner → ℤ → ℕ → Table
insert_cash_transfer table account source target cash_usd time_utc =
    table
    ++ plain_row account (cash_entry source transfer time_utc (pos 0 -ℤ cash_usd))
      ∷ plain_row account (cash_entry target transfer time_utc cash_usd)
      ∷ []

unfoldable pub insert_position_transfer : Table → String → Owner → Owner → OwnerPosition → ℕ → Table
insert_position_transfer table account source target p time_utc =
    table
    ++ plain_row account
        (position_entry source transfer time_utc p.instrument (pos 0 -ℤ p.quantity) p.average_cost)
      ∷ plain_row account
          (position_entry target transfer time_utc p.instrument p.quantity p.average_cost)
      ∷ []

abbrev earliest : ℕ → Option ℕ → ℕ
earliest t none = t
earliest t (some u) = min t u

unfoldable pub find_ledger_start_utc : List LedgerEntry → Option ℕ
find_ledger_start_utc [] = none
find_ledger_start_utc (e ∷ entries) =
    let rest = find_ledger_start_utc entries in
    elim e.entry_kind [
      | ledger_start ↦ some (earliest e.time_utc rest)
      | fill ↦ rest
      | EntryKind.split_adjustment ↦ rest
      | transfer ↦ rest
    ]

unfoldable pub create_forward_test_owner : ℕ → Owner
create_forward_test_owner forward_test_id = record {
  kind = forward_test_kind;
  forward_test_id = some forward_test_id;
}

unfoldable pub write_capital_allocation : Table → String → ℕ → ℤ → ℕ → Table
unfolding insert_cash_transfer create_forward_test_owner
write_capital_allocation table account forward_test_id allocated_capital_usd time_utc =
    insert_cash_transfer table account by_hand (create_forward_test_owner forward_test_id)
      allocated_capital_usd time_utc

-- The loop of `transfer_to_by_hand`.
unfoldable pub transfer_positions : Table → String → Owner → List OwnerPosition → ℕ → Table
unfolding insert_position_transfer
transfer_positions table account owner [] time_utc = table
transfer_positions table account owner (p ∷ positions) time_utc =
    if same_owner p.owner owner
    then transfer_positions (insert_position_transfer table account owner by_hand p time_utc)
        account owner positions time_utc
    else transfer_positions table account owner positions time_utc

-- `if cash_usd != 0: await insert_cash_transfer(…)`
unfoldable pub transfer_cash : Table → String → Owner → ℤ → ℕ → Table
unfolding insert_cash_transfer
transfer_cash table account owner cash_usd time_utc =
    if is_zero cash_usd
    then table
    else insert_cash_transfer table account owner by_hand cash_usd time_utc

unfoldable pub transfer_all : Decimals → Table → String → Owner → ℕ → Table
unfolding transfer_positions transfer_cash select_entries sum_owner_positions sum_owner_cash_usd
transfer_all decimals table account owner time_utc =
    let entries = select_entries table account in
    let moved =
      transfer_positions table account owner (sum_owner_positions decimals entries) time_utc in
    transfer_cash moved account owner (sum_owner_cash_usd entries owner) time_utc

unfoldable pub transfer_to_by_hand : Decimals → Table → ℕ → ℕ → Table
unfolding transfer_all select_owner_account create_forward_test_owner
transfer_to_by_hand decimals table forward_test_id time_utc =
    let owner = create_forward_test_owner forward_test_id in
    elim (select_owner_account table owner) [
      | none ↦ table
      | some account ↦ transfer_all decimals table account owner time_utc
    ]
