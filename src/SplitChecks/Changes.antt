-- ===== src/SplitChecks/Changes.antt =====
-- The change of the ledger at a stock split (`change_ledger` of
-- backend/src/atrade/paper_trading/stock_split_ledger.py, `insert_split_adjustments` of
-- split_check_store.py). `stored_last_close` is what `read_last_daily_bars` reads before a time. The
-- positions that `change_ledger` gives, `find_owner_positions` of the ledger afterwards, are left out.
use Prim.Native.String.{String}
use atrade.Prelude.{ℕ, ◌&&◌, List, [], ◌∷◌, ◌++◌, Option, none, some, if◌then◌else◌, ◌>>=◌}
use atrade.Prelude.Int.{ℤ, pos, ltb_ℤ}
use atrade.Ledger.{
  Instrument, Owner, EntryKind, OwnerPosition, Decimals, same_instrument, sum_owner_positions,
}
use atrade.Ledger.Table.{Row, Table, select_entries, plain_row, position_entry}
use atrade.Ledger.Rules.{Amounts, convert_to_usd, read_last_close}
use atrade.Splits.{Rounding, SplitAdjustment, calculate_split_adjustments}
use atrade.SplitChecks.{CheckTable, Resolution, write_resolution}
use atrade.SplitChecks.Bars.{
  SplitTables, StockSplitChange, SplitConfirmation, gateway_request, Attempt, raised, done,
  and_then, apply_stock_split_in_transaction,
}

-- A row of `insert_split_adjustments`, with its cash in lieu in USD.
abbrev pub adjustment_row : String → Instrument → ℕ → ℕ → SplitAdjustment → ℤ → Row
adjustment_row account instrument stock_split_id time_utc adjustment cash_in_lieu_usd =
    record (plain_row account
      (record (position_entry adjustment.owner EntryKind.split_adjustment time_utc instrument
        adjustment.quantity_change adjustment.price) { cash_change = cash_in_lieu_usd })) {
          stock_split_id = some stock_split_id;
        }

unfoldable pub adjustment_rows :
    Decimals → ℤ → String → Instrument → ℕ → ℕ → List SplitAdjustment → Table
adjustment_rows decimals usd_per_unit account instrument stock_split_id time_utc [] = []
adjustment_rows decimals usd_per_unit account instrument stock_split_id time_utc (a ∷ adjustments) =
    adjustment_row account instrument stock_split_id time_utc a
      (decimals.multiply a.cash_in_lieu usd_per_unit)
    ∷ adjustment_rows decimals usd_per_unit account instrument stock_split_id time_utc adjustments

unfoldable pub find_owner_quantities : List OwnerPosition → Instrument → List (Owner × ℤ)
unfolding same_instrument
find_owner_quantities [] instrument = []
find_owner_quantities (p ∷ positions) instrument =
    let rest = find_owner_quantities positions instrument in
    if same_instrument p.instrument instrument && ltb_ℤ (pos 0) p.quantity
    then (p.owner, p.quantity) ∷ rest
    else rest

-- What the code reads besides its tables: the last stored daily close before a time, and IB Gateway.
-- `unit` is `Decimal(1)`.
pub record SplitMarket : Type 0 where
  pub stored_last_close : Instrument → ℕ → Option ℤ
  pub amounts : Amounts
  pub unit : ℤ

unfoldable pub find_last_close : Decimals → SplitMarket → StockSplitChange → Option ℤ
unfolding read_last_close
find_last_close decimals market change =
    elim (market.stored_last_close change.instrument change.ex_date_utc) [
      | some close ↦ some close
      | none ↦
          read_last_close market.amounts change.instrument
          >>= (λ close. some (decimals.multiply close change.split_ratio))
    ]

pub record LedgerChange : Type 0 where
  pub account : String
  pub change : StockSplitChange
  pub account_quantity_after : ℤ
  pub confirmation : SplitConfirmation

-- `if split_check_id is not None: await split_check_store.write_resolution(…)`
abbrev pub end_check : Option ℕ → ℕ → ℕ → CheckTable → CheckTable
end_check none stock_split_id now_utc table = table
end_check (some id) stock_split_id now_utc table =
    write_resolution id Resolution.applied (some stock_split_id) now_utc table

module _ (decimals : Decimals) (rounding : Rounding) where
  -- The transaction of `change_ledger`, with the two amounts that it reads before it.
  abbrev pub write_adjustments :
      LedgerChange → Option ℕ → ℤ → ℤ → ℕ → Table → SplitTables × ℕ → SplitTables
  write_adjustments ledger_change split_check_id last_close usd_per_unit now_utc ledger
        (tables, id) =
      let change = ledger_change.change in
      let adjustments =
        calculate_split_adjustments decimals rounding
          (find_owner_quantities
            (sum_owner_positions decimals (select_entries ledger ledger_change.account))
            change.instrument)
          change.split_ratio ledger_change.account_quantity_after last_close in
      record tables {
        ledger =
            tables.ledger
            ++ adjustment_rows decimals usd_per_unit ledger_change.account change.instrument id
                now_utc adjustments;
        check_table = end_check split_check_id id now_utc tables.check_table;
      }

  unfoldable pub change_in_transaction :
      LedgerChange → Option ℕ → ℤ → ℤ → ℕ → SplitTables → Attempt SplitTables
  unfolding apply_stock_split_in_transaction adjustment_rows find_owner_quantities write_resolution
      calculate_split_adjustments select_entries sum_owner_positions
  change_in_transaction ledger_change split_check_id last_close usd_per_unit now_utc tables =
      and_then
        (apply_stock_split_in_transaction decimals ledger_change.change ledger_change.confirmation
          now_utc tables)
        (λ applied. done (
          write_adjustments ledger_change split_check_id last_close usd_per_unit now_utc
            tables.ledger applied))

  -- `none` of an amount is a GatewayRequestError, before the transaction.
  abbrev pub change_with :
      LedgerChange → Option ℕ → ℕ → SplitTables → Option ℤ → Option ℤ → Attempt SplitTables
  change_with ledger_change split_check_id now_utc tables (some last_close) (some usd_per_unit) =
      change_in_transaction ledger_change split_check_id last_close usd_per_unit now_utc tables
  change_with ledger_change split_check_id now_utc tables none usd_per_unit = raised gateway_request
  change_with ledger_change split_check_id now_utc tables (some last_close) none =
      raised gateway_request

  unfoldable pub change_ledger :
      SplitMarket → LedgerChange → Option ℕ → ℕ → SplitTables → Attempt SplitTables
  unfolding change_in_transaction find_last_close convert_to_usd
  change_ledger market ledger_change split_check_id now_utc tables =
      change_with ledger_change split_check_id now_utc tables
        (find_last_close decimals market ledger_change.change)
        (convert_to_usd decimals market.amounts market.unit
          ledger_change.change.instrument.currency)
