-- ===== src/SplitChecks/LedgerSum.antt =====
-- The ledger after a stock split adds up to the account at IBKR.
use Prim.Native.String.{String}
use text.Mathlib.TextPositions.{eq_refl}
use atrade.Prelude.{ℕ, ◌≡◌, refl, List, [], ◌∷◌, ◌++◌, Option, none, some, if◌then◌else◌}
use atrade.Prelude.Int.{ℤ, pos, ◌+ℤ◌, int_laws}
use atrade.Ledger.{
  Instrument, LedgerEntry, Decimals, same_instrument, instrument_of, sum_owner_positions,
}
use atrade.Ledger.Keys.{same_instrument_refl}
use atrade.Ledger.Table.{select_entries}
use atrade.Ledger.Transfers.{select_entries-append}
use atrade.Splits.{Rounding, SplitAdjustment, sum_quantities, calculate_split_adjustments}
use atrade.Splits.Shares.{sum_changes, calculate_split_adjustments-sum}
use atrade.SplitChecks.Bars.{SplitTables, done}
use atrade.SplitChecks.Changes.{
  SplitMarket, LedgerChange, adjustment_rows, find_owner_quantities, change_ledger,
}
use atrade.SplitChecks.Once.{of_done, change_ledger-done, apply_stock_split_in_transaction-keeps}

-- The shares of an instrument that an entry adds, of any owner.
abbrev shares_of : Instrument → LedgerEntry → ℤ
shares_of i e = elim (instrument_of e) [
  | none ↦ pos 0
  | some j ↦ if same_instrument j i then e.quantity_change else pos 0
]

-- The shares of an instrument of all owners.
abbrev pub all_shares : Instrument → List LedgerEntry → ℤ
all_shares i [] = pos 0
all_shares i (e ∷ entries) = shares_of i e +ℤ all_shares i entries

all_shares-append :
    (i : Instrument) (xs ys : List LedgerEntry)
    → all_shares i (xs ++ ys) ≡ all_shares i xs +ℤ all_shares i ys
all_shares-append i [] ys = omega int_laws
all_shares-append i (x ∷ xs) ys = rw (all_shares-append i xs ys) (omega int_laws)

add_up : (a s q x : ℤ) → q +ℤ s ≡ x → a +ℤ s +ℤ q ≡ a +ℤ x
add_up a s q x h = rw (← h) (omega int_laws)

module _ (decimals : Decimals) where
  all_shares-adjustment_rows :
      (usd : ℤ) (account : String) (i : Instrument) (split_id time : ℕ)
      (adjustments : List SplitAdjustment)
      → all_shares i (
          select_entries (adjustment_rows decimals usd account i split_id time adjustments) account)
        ≡ sum_changes adjustments
  unfolding adjustment_rows select_entries
  all_shares-adjustment_rows usd account i split_id time [] = refl
  all_shares-adjustment_rows usd account i split_id time (a ∷ adjustments) =
      rw
        (
          eq_refl account,
          same_instrument_refl i,
          all_shares-adjustment_rows usd account i split_id time adjustments,
        )
        refl

  -- The shares of the account after the change of its ledger are those before it, less those of the
  -- owners with more than 0 shares, and with the shares of the account at IBKR after the stock split:
  -- when these owners have all shares of the ledger, the ledger then has the shares of the account.
  pub change_ledger-all_shares :
      (rounding : Rounding) (market : SplitMarket) (ledger_change : LedgerChange)
      (check_id : Option ℕ) (now : ℕ) (tables after : SplitTables)
      → change_ledger decimals rounding market ledger_change check_id now tables ≡ done after
      → let i = ledger_change.change.instrument in
        let entries = select_entries tables.ledger ledger_change.account in
        let owners = find_owner_quantities (sum_owner_positions decimals entries) i in
        all_shares i (select_entries after.ledger ledger_change.account) +ℤ sum_quantities owners
        ≡ all_shares i entries +ℤ ledger_change.account_quantity_after
  change_ledger-all_shares rounding market lc check_id now tables after h =
      let (close, unit, applied, e1, e2) =
        change_ledger-done decimals rounding market lc check_id now tables after h in
      let i = lc.change.instrument in
      let entries = select_entries tables.ledger lc.account in
      let owners = find_owner_quantities (sum_owner_positions decimals entries) i in
      let adjustments =
        calculate_split_adjustments decimals rounding owners lc.change.split_ratio
          lc.account_quantity_after close in
      let same_ledger =
        (apply_stock_split_in_transaction-keeps decimals lc.change lc.confirmation now tables
          applied e1).1 in
      of_done
        (λ (t : SplitTables).
          all_shares i (select_entries t.ledger lc.account) +ℤ sum_quantities owners
          ≡ all_shares i entries +ℤ lc.account_quantity_after)
        e2
        (rw
          (
            same_ledger,
            select_entries-append lc.account tables.ledger
                (adjustment_rows decimals unit lc.account i applied.1 now adjustments),
            all_shares-append i entries (
                select_entries
                  (adjustment_rows decimals unit lc.account i applied.1 now adjustments)
                  lc.account),
            all_shares-adjustment_rows unit lc.account i applied.1 now adjustments,
          )
          (add_up (all_shares i entries) (sum_changes adjustments) (sum_quantities owners)
            lc.account_quantity_after
            (calculate_split_adjustments-sum decimals rounding owners lc.change.split_ratio
              lc.account_quantity_after close)))
