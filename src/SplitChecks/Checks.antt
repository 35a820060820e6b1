-- ===== src/SplitChecks/Checks.antt =====
-- The daily check of an instrument (`check_instrument` of
-- backend/src/atrade/paper_trading/stock_split_ledger.py).
use Prim.Native.String.{String}
use atrade.Prelude.{
  ℕ, Bool, true, false, not, ◌&&◌, List, [], ◌∷◌, any, Option, none, some, if◌then◌else◌,
}
use atrade.Prelude.Int.{ℤ, eqb_ℤ, is_zero}
use atrade.Ledger.{Instrument, Owner, Decimals, same_instrument, sum_owner_positions}
use atrade.Ledger.Table.{select_entries}
use atrade.Splits.{Rounding, SplitEvidence, find_split_evidence, sum_quantities}
use atrade.SplitChecks.{
  is_needed, is_kept, SplitCheckEvidence, SplitCheck, insert_split_check, select_split_checks,
  has_stock_split_check,
}
use atrade.SplitChecks.Bars.{
  SplitTables, StockSplitChange, both_evidences, bar_evidence, Attempt, done, and_then,
  apply_stock_split_in_transaction,
}
use atrade.SplitChecks.Changes.{SplitMarket, find_owner_quantities, change_ledger}

-- backend/src/atrade/market_data/stock_split_evidence.py
pub record StockSplitCandidate : Type 0 where
  pub id : ℕ
  pub instrument : Instrument
  pub ex_date_utc : ℕ
  pub split_ratio : ℤ

pub record InstrumentCheck : Type 0 where
  pub account : String
  pub instrument : Instrument
  pub account_quantity : ℤ
  pub candidate : Option StockSplitCandidate
  pub check_day_utc : ℕ
  pub is_last_try : Bool

pub data CheckResult : Type 0 where
  no_split incomplete confirmed split_check_needed : CheckResult

pub record InstrumentCheckOutcome : Type 0 where
  pub result : CheckResult
  pub forward_test_ids : List ℕ

abbrev pub outcome : CheckResult → List ℕ → InstrumentCheckOutcome
outcome result ids = record { result = result; forward_test_ids = ids }

unfoldable pub find_forward_test_ids : List (Owner × ℤ) → List ℕ
find_forward_test_ids [] = []
find_forward_test_ids ((owner, quantity) ∷ owners) =
    let rest = find_forward_test_ids owners in
    elim owner.forward_test_id [ none ↦ rest | some id ↦ id ∷ rest ]

abbrev pub to_change : StockSplitCandidate → StockSplitChange
to_change c = record {
  instrument = c.instrument;
  ex_date_utc = c.ex_date_utc;
  split_ratio = c.split_ratio;
}

-- "Keep ledger" leaves the candidate: the check does not check it again.
abbrev pub unchecked : List SplitCheck → Option StockSplitCandidate → Option StockSplitCandidate
unchecked checks none = none
unchecked checks (some c) = if has_stock_split_check c.id checks then none else some c

abbrev pub ratio_of : Option StockSplitCandidate → Option ℤ
ratio_of none = none
ratio_of (some c) = some c.split_ratio

-- `item.instrument == check.instrument`
unfoldable pub checks_of : Instrument → List SplitCheck → List SplitCheck
unfolding same_instrument
checks_of instrument [] = []
checks_of instrument (item ∷ items) =
    let rest = checks_of instrument items in
    if same_instrument item.instrument instrument then item ∷ rest else rest

abbrev pub is_kept_with : ℤ → ℤ → SplitCheck → Bool
is_kept_with quantity_before quantity_after item =
    is_kept item.status
    && eqb_ℤ item.account_quantity_before quantity_before
    && eqb_ℤ item.account_quantity_after quantity_after

-- The evidence of a new split check. The code gives `position_only` for `confirmed` without a
-- candidate.
abbrev pub check_evidence : SplitEvidence → SplitCheckEvidence
check_evidence (SplitEvidence.confirmed r) = SplitCheckEvidence.position_only
check_evidence (SplitEvidence.bar_ratio_only r) = SplitCheckEvidence.bar_ratio_only
check_evidence (SplitEvidence.position_only r) = SplitCheckEvidence.position_only
check_evidence (SplitEvidence.ratios_differ r) = SplitCheckEvidence.ratios_differ
check_evidence (SplitEvidence.share_count_differs r) = SplitCheckEvidence.share_count_differs
check_evidence (SplitEvidence.unusual_ratio r) = SplitCheckEvidence.unusual_ratio

abbrev pub is_confirmed : SplitEvidence → Bool
is_confirmed (SplitEvidence.confirmed r) = true
is_confirmed (SplitEvidence.bar_ratio_only r) = false
is_confirmed (SplitEvidence.position_only r) = false
is_confirmed (SplitEvidence.ratios_differ r) = false
is_confirmed (SplitEvidence.share_count_differs r) = false
is_confirmed (SplitEvidence.unusual_ratio r) = false

abbrev pub evidence_ratio : SplitEvidence → ℤ
evidence_ratio (SplitEvidence.confirmed r) = r
evidence_ratio (SplitEvidence.bar_ratio_only r) = r
evidence_ratio (SplitEvidence.position_only r) = r
evidence_ratio (SplitEvidence.ratios_differ r) = r
evidence_ratio (SplitEvidence.share_count_differs r) = r
evidence_ratio (SplitEvidence.unusual_ratio r) = r

-- `evidence.kind in {"position_only", "bar_ratio_only"}`
abbrev pub is_incomplete : SplitEvidence → Bool
is_incomplete (SplitEvidence.confirmed r) = false
is_incomplete (SplitEvidence.bar_ratio_only r) = true
is_incomplete (SplitEvidence.position_only r) = true
is_incomplete (SplitEvidence.ratios_differ r) = false
is_incomplete (SplitEvidence.share_count_differs r) = false
is_incomplete (SplitEvidence.unusual_ratio r) = false

abbrev pub candidate_id : Option StockSplitCandidate → Option ℕ
candidate_id none = none
candidate_id (some c) = some c.id

abbrev pub ex_date : ℕ → Option StockSplitCandidate → ℕ
ex_date check_day_utc none = check_day_utc
ex_date check_day_utc (some c) = c.ex_date_utc

-- The new tables and the outcome of a check.
abbrev pub Checked : Type 0
Checked = Attempt (SplitTables × InstrumentCheckOutcome)

abbrev pub add_needed_check :
    InstrumentCheck → Option StockSplitCandidate → SplitEvidence → ℤ → ℕ → SplitTables → SplitTables
add_needed_check check candidate evidence quantity_before now_utc tables = record tables {
  check_table =
      insert_split_check
        (record {
          account = check.account;
          instrument = check.instrument;
          stock_split_id = candidate_id candidate;
          ex_date_utc = ex_date check.check_day_utc candidate;
          detected_ratio = evidence_ratio evidence;
          evidence = check_evidence evidence;
          account_quantity_before = quantity_before;
          account_quantity_after = check.account_quantity;
        })
        now_utc tables.check_table;
}

-- After the evidence, when the ledger does not change.
abbrev pub need_check :
    InstrumentCheck → Option StockSplitCandidate → SplitEvidence → ℤ → ℕ → SplitTables → Checked
need_check check candidate evidence quantity_before now_utc tables =
    if is_incomplete evidence && not check.is_last_try
    then done (tables, outcome incomplete [])
    else done (
      add_needed_check check candidate evidence quantity_before now_utc tables,
      outcome split_check_needed [],
    )

module _ (decimals : Decimals) (rounding : Rounding) (market : SplitMarket) where
  abbrev pub confirm :
      InstrumentCheck → StockSplitCandidate → List (Owner × ℤ) → ℕ → SplitTables → Checked
  confirm check candidate owner_quantities now_utc tables =
      and_then
        (change_ledger decimals rounding market
          (record {
            account = check.account;
            change = to_change candidate;
            account_quantity_after = check.account_quantity;
            confirmation = both_evidences;
          })
          none now_utc tables)
        (λ after. done (after, outcome confirmed (find_forward_test_ids owner_quantities)))

  abbrev pub confirm_or_need :
      InstrumentCheck
      → Option StockSplitCandidate
      → SplitEvidence
      → List (Owner × ℤ)
      → ℕ
      → SplitTables
      → Checked
  confirm_or_need check none evidence owner_quantities now_utc tables =
      need_check check none evidence (sum_quantities owner_quantities) now_utc tables
  confirm_or_need check (some c) evidence owner_quantities now_utc tables =
      if is_confirmed evidence
      then confirm check c owner_quantities now_utc tables
      else need_check check (some c) evidence (sum_quantities owner_quantities) now_utc tables

  -- With the evidence of `find_split_evidence`, of an instrument that an owner holds.
  abbrev pub check_with_evidence :
      InstrumentCheck
      → Option StockSplitCandidate
      → List (Owner × ℤ)
      → List SplitCheck
      → ℕ
      → SplitTables
      → Option SplitEvidence
      → Checked
  check_with_evidence check candidate owner_quantities items now_utc tables none =
      done (tables, outcome no_split [])
  check_with_evidence check candidate owner_quantities items now_utc tables (some evidence) =
      if any (is_kept_with (sum_quantities owner_quantities) check.account_quantity) items
      then done (tables, outcome no_split [])
      else confirm_or_need check candidate evidence owner_quantities now_utc tables

  -- No owner holds the instrument: evidence A alone confirms the stock split.
  abbrev pub check_unheld : Option StockSplitCandidate → ℕ → SplitTables → Checked
  check_unheld none now_utc tables = done (tables, outcome no_split [])
  check_unheld (some c) now_utc tables =
      and_then (apply_stock_split_in_transaction decimals (to_change c) bar_evidence now_utc tables)
        (λ applied. done (applied.0, outcome confirmed []))

  abbrev pub check_held :
      InstrumentCheck
      → Option StockSplitCandidate
      → List (Owner × ℤ)
      → List SplitCheck
      → ℕ
      → SplitTables
      → Checked
  check_held check candidate owner_quantities items now_utc tables =
      let quantity_before = sum_quantities owner_quantities in
      if is_zero quantity_before
      then check_unheld candidate now_utc tables
      else check_with_evidence check candidate owner_quantities items now_utc tables (
          find_split_evidence decimals rounding (ratio_of candidate) quantity_before
            check.account_quantity)

  unfoldable pub check_instrument : InstrumentCheck → ℕ → SplitTables → Checked
  unfolding checks_of select_split_checks has_stock_split_check find_owner_quantities
      sum_owner_positions select_entries find_split_evidence change_ledger
      apply_stock_split_in_transaction insert_split_check find_forward_test_ids sum_quantities
  check_instrument check now_utc tables =
      let checks = tables.check_table.checks in
      let items = checks_of check.instrument (select_split_checks check.account checks) in
      let positions = sum_owner_positions decimals (select_entries tables.ledger check.account) in
      if any (λ (item : SplitCheck). is_needed item.status) items
      then done (tables, outcome no_split [])
      else check_held check (unchecked checks check.candidate)
          (find_owner_quantities positions check.instrument) items now_utc tables
