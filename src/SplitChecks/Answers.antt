-- ===== src/SplitChecks/Answers.antt =====
-- The two answers of the user to a "Split check needed" state: "Apply split" and "Keep ledger"
-- (backend/src/atrade/paper_trading/stock_split_ledger.py).
use atrade.Prelude.{ℕ, Option, none, some, if◌then◌else◌}
use atrade.Ledger.{Decimals}
use atrade.Splits.{Rounding}
use atrade.SplitChecks.{is_needed, SplitCheck, Resolution, write_resolution, select_split_check}
use atrade.SplitChecks.Bars.{
  SplitTables, user_apply, split_check_not_found, split_check_resolved, Attempt, raised, done,
  and_then,
}
use atrade.SplitChecks.Changes.{SplitMarket, LedgerChange, change_ledger}

-- `read_needed_check`
abbrev pub needed_check : Option SplitCheck → Attempt SplitCheck
needed_check none = raised split_check_not_found
needed_check (some check) =
    if is_needed check.status then done check else raised split_check_resolved

unfoldable pub read_needed_check : ℕ → SplitTables → Attempt SplitCheck
unfolding select_split_check
read_needed_check id tables = needed_check (select_split_check id tables.check_table.checks)

abbrev pub change_of_check : SplitCheck → LedgerChange
change_of_check check = record {
  account = check.account;
  change = record {
    instrument = check.instrument;
    ex_date_utc = check.ex_date_utc;
    split_ratio = check.detected_ratio;
  };
  account_quantity_after = check.account_quantity_after;
  confirmation = user_apply;
}

abbrev pub end_as_kept : ℕ → ℕ → SplitTables → SplitTables
end_as_kept id now_utc tables = record tables {
  check_table = write_resolution id Resolution.kept none now_utc tables.check_table;
}

unfoldable pub keep_ledger : ℕ → ℕ → SplitTables → Attempt SplitTables
unfolding read_needed_check write_resolution
keep_ledger id now_utc tables =
    and_then (read_needed_check id tables) (λ check. done (end_as_kept id now_utc tables))

unfoldable pub apply_split :
    Decimals → Rounding → SplitMarket → ℕ → ℕ → SplitTables → Attempt SplitTables
unfolding read_needed_check change_ledger
apply_split decimals rounding market id now_utc tables =
    and_then (read_needed_check id tables) (λ check.
      change_ledger decimals rounding market (change_of_check check) (some id) now_utc tables)
