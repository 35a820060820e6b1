-- ===== src/Ledger/Start.antt =====
-- The start of the ledger of an account, and fills that ATrade reads again.
use Prim.Native.String.{String}
use package.text.Mathlib.Text.{◌==◌ as str_eq}
use text.Mathlib.TextPositions.{eq_refl}
use atrade.Prelude.{
  or_false, ℕ, ◌≡◌, refl, Bool, true, false, List, [], ◌∷◌, if◌then◌else◌, Bool-cases, inl, inr,
}
use atrade.Prelude.Int.{ℤ, pos, ◌+ℤ◌, is_zero, is_zero-eq, int_laws}
use atrade.Ledger.{Instrument, by_hand, same_key, sum_owner_cash_usd}
use atrade.Ledger.Sums.{held}
use atrade.Ledger.Table.{
  Table, select_entries, PortfolioPosition, instrument_of_position, start_rows, has_account,
  start_ledger,
}
use atrade.Ledger.Transfers.{select_entries-append}

-- The shares of an instrument in the positions that IBKR reports.
abbrev pub reported : Instrument → List PortfolioPosition → ℤ
reported i [] = pos 0
reported i (p ∷ ps) =
    (if same_key (by_hand, i) (by_hand, instrument_of_position p) then p.quantity else pos 0)
    +ℤ reported i ps

no_entries :
    (account : String) (table : Table)
    → has_account account table ≡ false
    → select_entries table account ≡ []
unfolding select_entries
no_entries account [] h = refl
no_entries account (row ∷ table) h =
    let (other, rest) = or_false (str_eq row.account account) (has_account account table) h in
    rw other (no_entries account table rest)

held-start_rows :
    (account : String) (ps : List PortfolioPosition) (cash : ℤ) (time : ℕ) (i : Instrument)
    → held (by_hand, i) (select_entries (start_rows account ps cash time) account) ≡ reported i ps
unfolding select_entries start_rows
held-start_rows account [] cash time i = rw (eq_refl account) (omega int_laws)
held-start_rows account (p ∷ ps) cash time i = elim (Bool-cases (is_zero p.quantity)) [
  | inl zero ↦
      rw (zero, held-start_rows account ps cash time i, is_zero-eq p.quantity zero)
        (skip (same_key (by_hand, i) (by_hand, instrument_of_position p)) (reported i ps))
  | inr more ↦ rw (more, eq_refl account, held-start_rows account ps cash time i) refl
]
  where
    skip : (b : Bool) (r : ℤ) → r ≡ (if b then pos 0 else pos 0) +ℤ r
    skip true r = omega int_laws
    skip false r = omega int_laws

cash-start_rows :
    (account : String) (ps : List PortfolioPosition) (cash : ℤ) (time : ℕ)
    → sum_owner_cash_usd (select_entries (start_rows account ps cash time) account) by_hand ≡ cash
unfolding select_entries start_rows sum_owner_cash_usd
cash-start_rows account [] cash time = rw (eq_refl account) (omega int_laws)
cash-start_rows account (p ∷ ps) cash time = elim (Bool-cases (is_zero p.quantity)) [
  | inl zero ↦ rw zero (cash-start_rows account ps cash time)
  | inr more ↦ rw (more, eq_refl account, cash-start_rows account ps cash time) (omega int_laws)
]

-- The ledger of an account with no row starts with the positions and the cash of the account as those
-- of "By hand".
pub start_ledger-sums :
    (table : Table) (account : String) (positions : List PortfolioPosition) (cash : ℤ) (time : ℕ)
    (i : Instrument)
    → has_account account table ≡ false
    → let entries = select_entries (start_ledger table account positions cash time) account in
      (held (by_hand, i) entries ≡ reported i positions)
      × (sum_owner_cash_usd entries by_hand ≡ cash)
unfolding start_ledger
start_ledger-sums table account ps cash time i new =
    rw
      (
        new,
        select_entries-append account table (start_rows account ps cash time),
        no_entries account table new,
      )
      (held-start_rows account ps cash time i, cash-start_rows account ps cash time)
