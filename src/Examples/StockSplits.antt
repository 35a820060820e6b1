-- ===== src/Examples/StockSplits.antt =====
-- Runs of a stock split of 2 for 1 on 100 shares of "By hand".
use atrade.Prelude.{ℕ, ◌≡◌, refl, ◌⊎◌, inl, arith, true, List, [], ◌∷◌, Option, none, some}
use atrade.Prelude.Int.{pos, ◌+ℤ◌, ◌-ℤ◌, ◌*ℤ◌, is_zero}
use atrade.Ledger.{Instrument, sum_owner_positions}
use atrade.Ledger.Table.{select_entries, start_ledger, PortfolioPosition}
use atrade.Splits.{Rounding, sum_quantities}
use atrade.SplitChecks.{
  SplitCheck, SplitCheckStatus, SplitCheckEvidence, CheckTable, NewSplitCheck, Resolution,
  insert_split_check, write_resolution, select_split_check,
}
use atrade.SplitChecks.Bars.{
  SplitTables, StockSplitChange, StoredBar, both_evidences, user_apply, Attempt, raised, done,
  stock_split_confirmed, split_check_resolved, apply_stock_split_in_transaction,
}
use atrade.SplitChecks.Changes.{SplitMarket, LedgerChange, change_ledger, find_owner_quantities}
use atrade.SplitChecks.Checks.{
  StockSplitCandidate, InstrumentCheck, InstrumentCheckOutcome, check_instrument, outcome, no_split,
}
use atrade.SplitChecks.Answers.{keep_ledger, apply_split}
use atrade.SplitChecks.LedgerSum.{all_shares, change_ledger-all_shares}
use atrade.SplitChecks.BothEvidences.{HasBothEvidences, check_instrument-HasBothEvidences}
use atrade.SplitChecks.Once.{answer-IsResolved}
use atrade.SplitChecks.BarsOnce.{with_ratio, apply_stock_split_in_transaction-twice}
use atrade.SplitChecks.OneState.{HasOneState, Reach, here, next, insert, Reach-HasOneState}
use atrade.Examples.Ledgers.{decimals}

abbrev rounding : Rounding
rounding = record { quantize = λ q. q; floor = λ q. q; to_fraction = λ r. (r, pos 1) }

abbrev pub stock : Instrument
stock = record { symbol = "AAPL"; exchange = "NASDAQ"; currency = "USD" }

abbrev market : SplitMarket
market = record {
  stored_last_close = λ i t. some (pos 50);
  amounts = record {
    now_utc = 100;
    read_historical_bars = λ i p r. none;
    read_exchange_rate = λ a b. none;
    watchlist_instruments = [];
  };
  unit = pos 1;
}

abbrev positions : List PortfolioPosition
positions =
    record {
      symbol = "AAPL";
      exchange = "NASDAQ";
      currency = "USD";
      quantity = pos 100;
      average_cost = pos 20;
    }
    ∷ []

abbrev pub tables : SplitTables
tables = record {
  stock_splits = [];
  next_split_id = 1;
  ibkr_bars = [];
  databento_bars = [];
  ledger = start_ledger [] "DU1" positions (pos 5000) 10;
  check_table = record { checks = []; next_id = 1 };
}

abbrev pub change : StockSplitChange
change = record { instrument = stock; ex_date_utc = 90; split_ratio = pos 2 }

abbrev ledger_change : LedgerChange
ledger_change = record {
  account = "DU1";
  change = change;
  account_quantity_after = pos 200;
  confirmation = both_evidences;
}

-- The tables after an attempt.
abbrev tables_of : SplitTables → Attempt SplitTables → SplitTables
tables_of before (raised e) = before
tables_of before (done after) = after

abbrev changed : SplitTables
changed = tables_of tables (change_ledger decimals rounding market ledger_change none 100 tables)

changes : change_ledger decimals rounding market ledger_change none 100 tables ≡ done changed
unfolding change_ledger
changes = refl

change_ledger-all_shares_example :
    all_shares stock (select_entries changed.ledger "DU1")
      +ℤ sum_quantities (
          find_owner_quantities
            (sum_owner_positions decimals (select_entries tables.ledger "DU1"))
            stock)
    ≡ all_shares stock (select_entries tables.ledger "DU1") +ℤ pos 200
change_ledger-all_shares_example =
    change_ledger-all_shares decimals rounding market ledger_change none 100 tables changed changes

-- IBKR has 200 shares, and the bars have no stock split: the user must answer.
abbrev daily_check : Option StockSplitCandidate → InstrumentCheck
daily_check candidate = record {
  account = "DU1";
  instrument = stock;
  account_quantity = pos 200;
  candidate = candidate;
  check_day_utc = 90;
  is_last_try = true;
}

abbrev result_of :
    SplitTables × InstrumentCheckOutcome
    → Attempt (SplitTables × InstrumentCheckOutcome)
    → SplitTables × InstrumentCheckOutcome
result_of before (raised e) = before
result_of before (done after) = after

abbrev checked : SplitTables × InstrumentCheckOutcome
checked =
    result_of (tables, outcome no_split [])
      (check_instrument decimals rounding market (daily_check none) 100 tables)

check_ends : check_instrument decimals rounding market (daily_check none) 100 tables ≡ done checked
unfolding check_instrument start_ledger ◌+ℤ◌ ◌-ℤ◌ ◌*ℤ◌ is_zero
check_ends = refl

check_instrument-HasBothEvidences_example :
    (checked.0.ledger ≡ tables.ledger)
    ⊎ HasBothEvidences decimals rounding market (daily_check none) 100 tables checked none (
        sum_quantities (
          find_owner_quantities
            (sum_owner_positions decimals (select_entries tables.ledger "DU1"))
            stock))
check_instrument-HasBothEvidences_example =
    check_instrument-HasBothEvidences decimals rounding market (daily_check none) 100 tables checked
      check_ends

abbrev kept_tables : SplitTables
kept_tables = tables_of tables (keep_ledger 1 120 checked.0)

keeps : keep_ledger 1 120 checked.0 ≡ done kept_tables
unfolding keep_ledger check_instrument start_ledger ◌+ℤ◌ ◌-ℤ◌ ◌*ℤ◌ is_zero
keeps = refl

answer-IsResolved_example :
    (keep_ledger 1 130 kept_tables ≡ raised split_check_resolved)
    × (apply_split decimals rounding market 1 130 kept_tables ≡ raised split_check_resolved)
answer-IsResolved_example =
    answer-IsResolved decimals rounding market 1 120 checked.0 kept_tables (inl keeps) 130

-- Two answers at the same time: both read the check as needed, "Apply split" writes its changes, and
-- then "Keep ledger" writes its resolution. The check is kept at the end, and the ledger has the
-- shares after the stock split.
abbrev applied_tables : SplitTables
applied_tables = tables_of tables (apply_split decimals rounding market 1 120 checked.0)

abbrev status_of : Option SplitCheck → Option SplitCheckStatus
status_of none = none
status_of (some check) = some check.status

both_answers :
    (status_of (
        select_split_check 1
          (write_resolution 1 Resolution.kept none 121 applied_tables.check_table).checks)
      ≡ some SplitCheckStatus.kept)
    × (all_shares stock (select_entries applied_tables.ledger "DU1") ≡ pos 200)
unfolding write_resolution apply_split check_instrument start_ledger ◌+ℤ◌ ◌-ℤ◌ ◌*ℤ◌ is_zero
both_answers = (refl, refl)

abbrev pub bar : StoredBar
bar = record {
  instrument = stock;
  start_utc = 80;
  open_price = pos 49;
  high = pos 52;
  low = pos 48;
  close = pos 50;
  volume = pos 1000;
}

abbrev pub bar_tables : SplitTables
bar_tables = record tables { ibkr_bars = bar ∷ [] }

abbrev pair_of : SplitTables × ℕ → Attempt (SplitTables × ℕ) → SplitTables × ℕ
pair_of before (raised e) = before
pair_of before (done after) = after

abbrev split_applied : SplitTables × ℕ
split_applied =
    pair_of (bar_tables, 0)
      (apply_stock_split_in_transaction decimals change user_apply 100 bar_tables)

applies :
    apply_stock_split_in_transaction decimals change user_apply 100 bar_tables ≡ done split_applied
unfolding apply_stock_split_in_transaction
applies = refl

apply_stock_split_in_transaction-twice_example :
    apply_stock_split_in_transaction decimals
      (with_ratio change (pos 3))
      both_evidences
      110
      split_applied.0
    ≡ raised stock_split_confirmed
apply_stock_split_in_transaction-twice_example =
    apply_stock_split_in_transaction-twice change (pos 3) user_apply both_evidences 100 110 decimals
      bar_tables split_applied applies

abbrev no_checks : CheckTable
no_checks = record { checks = []; next_id = 1 }

no_checks-HasOneState : HasOneState no_checks
no_checks-HasOneState account i = omega arith

abbrev held_check : NewSplitCheck
held_check = record {
  account = "DU1";
  instrument = stock;
  stock_split_id = none;
  ex_date_utc = 90;
  detected_ratio = pos 2;
  evidence = SplitCheckEvidence.position_only;
  account_quantity_before = pos 100;
  account_quantity_after = pos 200;
}

abbrev pub once : CheckTable
once = insert_split_check held_check 100 no_checks

abbrev twice : CheckTable
twice = insert_split_check held_check 101 once

inserted_twice : Reach no_checks twice
inserted_twice = next (next here (insert no_checks held_check 100)) (insert once held_check 101)

Reach-HasOneState_example : HasOneState twice
Reach-HasOneState_example = Reach-HasOneState inserted_twice no_checks-HasOneState
