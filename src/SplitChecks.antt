-- ===== src/SplitChecks.antt =====
-- The stock splits of paper trading: the table `split_check` with the "Split check needed" state
-- (backend/src/atrade/paper_trading/split_check_store.py), the change of the stored bars
-- (backend/src/atrade/market_data/stock_split_change.py) and the ledger change with its checks
-- (backend/src/atrade/paper_trading/stock_split_ledger.py). This file has the tables and the statements
-- of `split_check`. A table is the list of its rows in the order of their ids.
pub mod Bars
pub mod Changes
pub mod Checks
pub mod Answers
pub mod Once
pub mod BarsOnce
pub mod LedgerSum
pub mod BothEvidences
pub mod OneState
pub mod Evidence
pub mod Candidates
pub mod Confirmed
use atrade.Prelude.Tables.{update_rows}
use Prim.Native.String.{String}
use package.text.Mathlib.Text.{◌==◌ as str_eq}
use atrade.Prelude.{
  ℕ, ◌+◌, ◌==◌, Bool, true, false, not, ◌&&◌, ◌||◌, List, [], ◌∷◌, ◌++◌, any, Option, none, some,
  if◌then◌else◌,
}
use atrade.Prelude.Int.{ℤ, pos, ltb_ℤ}
use atrade.Ledger.{Instrument, Owner, LedgerEntry, same_instrument}
use atrade.Ledger.Table.{Row, Table}

pub data SplitCheckStatus : Type 0 where
  needed applied kept : SplitCheckStatus

abbrev pub is_needed : SplitCheckStatus → Bool
is_needed SplitCheckStatus.needed = true
is_needed SplitCheckStatus.applied = false
is_needed SplitCheckStatus.kept = false

abbrev pub is_kept : SplitCheckStatus → Bool
is_kept SplitCheckStatus.needed = false
is_kept SplitCheckStatus.applied = false
is_kept SplitCheckStatus.kept = true

pub data SplitCheckEvidence : Type 0 where
  bar_ratio_only position_only ratios_differ share_count_differs unusual_ratio : SplitCheckEvidence

-- `instrument` holds the columns `symbol`, `exchange` and `currency`.
pub record SplitCheck : Type 0 where
  pub id : ℕ
  pub stock_split_id : Option ℕ
  pub account : String
  pub instrument : Instrument
  pub ex_date_utc : ℕ
  pub detected_ratio : ℤ
  pub evidence : SplitCheckEvidence
  pub account_quantity_before : ℤ
  pub account_quantity_after : ℤ
  pub status : SplitCheckStatus
  pub created_at_utc : ℕ
  pub resolved_at_utc : Option ℕ
  pub restarted_at_utc : Option ℕ

pub record NewSplitCheck : Type 0 where
  pub account : String
  pub instrument : Instrument
  pub stock_split_id : Option ℕ
  pub ex_date_utc : ℕ
  pub detected_ratio : ℤ
  pub evidence : SplitCheckEvidence
  pub account_quantity_before : ℤ
  pub account_quantity_after : ℤ

pub record CheckTable : Type 0 where
  pub checks : List SplitCheck
  pub next_id : ℕ

abbrev pub new_check : ℕ → NewSplitCheck → ℕ → SplitCheck
new_check id check created_at_utc = record {
  id = id;
  stock_split_id = check.stock_split_id;
  account = check.account;
  instrument = check.instrument;
  ex_date_utc = check.ex_date_utc;
  detected_ratio = check.detected_ratio;
  evidence = check.evidence;
  account_quantity_before = check.account_quantity_before;
  account_quantity_after = check.account_quantity_after;
  status = SplitCheckStatus.needed;
  created_at_utc = created_at_utc;
  resolved_at_utc = none;
  restarted_at_utc = none;
}

-- The columns of the index `split_check_needed`.
unfoldable pub is_in_state : String → Instrument → SplitCheck → Bool
unfolding same_instrument
is_in_state account instrument check =
    is_needed check.status
    && (str_eq check.account account && same_instrument check.instrument instrument)

-- `ON CONFLICT (account, symbol, exchange, currency) WHERE status = 'needed' DO NOTHING`. An insert that
-- does nothing takes an id too.
unfoldable pub insert_split_check : NewSplitCheck → ℕ → CheckTable → CheckTable
unfolding is_in_state
insert_split_check check created_at_utc table =
    if any (is_in_state check.account check.instrument) table.checks
    then record table { next_id = table.next_id + 1 }
    else record {
      checks = table.checks ++ new_check table.next_id check created_at_utc ∷ [];
      next_id = table.next_id + 1;
    }

-- `COALESCE(…, stock_split_id)`
abbrev pub coalesce : Option ℕ → Option ℕ → Option ℕ
coalesce none old = old
coalesce (some new) old = some new

abbrev pub update_check : ℕ → (SplitCheck → SplitCheck) → List SplitCheck → List SplitCheck
update_check id set_check checks = update_rows (λ check. check.id == id) set_check checks

pub data Resolution : Type 0 where
  applied kept : Resolution

abbrev pub resolved_status : Resolution → SplitCheckStatus
resolved_status Resolution.applied = SplitCheckStatus.applied
resolved_status Resolution.kept = SplitCheckStatus.kept

abbrev pub resolve_check : Resolution → Option ℕ → ℕ → SplitCheck → SplitCheck
resolve_check resolution stock_split_id resolved_at_utc check = record check {
  status = resolved_status resolution;
  resolved_at_utc = some resolved_at_utc;
  stock_split_id = coalesce stock_split_id check.stock_split_id;
}

unfoldable pub write_resolution : ℕ → Resolution → Option ℕ → ℕ → CheckTable → CheckTable
unfolding update_rows
write_resolution id resolution stock_split_id resolved_at_utc table = record table {
  checks = update_check id (resolve_check resolution stock_split_id resolved_at_utc) table.checks;
}

unfoldable pub write_restarted : ℕ → ℕ → CheckTable → CheckTable
unfolding update_rows
write_restarted id restarted_at_utc table = record table {
  checks =
      update_check id (λ check. record check { restarted_at_utc = some restarted_at_utc })
        table.checks;
}

unfoldable pub select_split_check : ℕ → List SplitCheck → Option SplitCheck
select_split_check id [] = none
select_split_check id (check ∷ checks) =
    if check.id == id then some check else select_split_check id checks

-- `select_split_checks` of an account, with any status.
unfoldable pub select_split_checks : String → List SplitCheck → List SplitCheck
select_split_checks account [] = []
select_split_checks account (check ∷ checks) =
    let rest = select_split_checks account checks in
    if str_eq check.account account then check ∷ rest else rest

abbrev pub is_split_id : ℕ → Option ℕ → Bool
is_split_id id none = false
is_split_id id (some other) = other == id

unfoldable pub has_stock_split_check : ℕ → List SplitCheck → Bool
has_stock_split_check stock_split_id checks =
    any (λ (check : SplitCheck). is_split_id stock_split_id check.stock_split_id) checks
