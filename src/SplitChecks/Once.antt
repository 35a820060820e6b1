-- ===== src/SplitChecks/Once.antt =====
-- A stock split changes the bars once, and a "Split check needed" state ends once.
use atrade.Prelude.Tables.{update_rows}
use atrade.Prelude.{
  ℕ, ◌≡◌, refl, ◌⊎◌, inl, inr, ap, ◌==◌, List, [], ◌∷◌, Option, none, some, arith, Bool-cases,
}
use mathlib.Core.Option
use mathlib.Core.Option.{none-ne-some}
use atrade.Prelude.Int.{ℤ}
use atrade.Ledger.{Decimals}
use atrade.Splits.{Rounding}
use atrade.SplitChecks.{
  SplitCheck, Resolution, resolve_check, update_check, write_resolution, select_split_check,
}
use atrade.SplitChecks.Bars.{
  StockSplit, StockSplitChange, SplitConfirmation, SplitTables, SplitError, split_check_resolved,
  Attempt, raised, done, and_then, write_split_row, change_stored_bars,
  apply_stock_split_in_transaction,
}
use atrade.SplitChecks.Changes.{
  SplitMarket, LedgerChange, change_ledger, change_with, change_in_transaction, write_adjustments,
  find_last_close, end_check,
}
use atrade.SplitChecks.Answers.{
  needed_check, read_needed_check, change_of_check, end_as_kept, keep_ledger, apply_split,
}
use atrade.Ledger.Rules.{convert_to_usd}

pub no_done : {A : Type 0} (e : SplitError) (a : A) → raised e ≡ done a → ⊥
no_done e a h = ground arith

pub of_done : {A : Type 0} (P : A → Type 0) {a b : A} → done a ≡ done b → P a → P b
of_done P h p = ground (arith, h, p)

-- A chain of attempts that ends.
pub and_then-done :
    {A B : Type 0} (o : Attempt A) (f : A → Attempt B) (b : B)
    → and_then o f ≡ done b
    → (a : A) × (o ≡ done a) × (f a ≡ done b)
and_then-done (raised e) f b h = absurd (no_done e b h)
and_then-done (done a) f b h = (a, refl, h)

-- A split check that is written keeps its id.
select-update_check :
    (id : ℕ) (set_check : SplitCheck → SplitCheck)
    → ((check : SplitCheck) → (set_check check).id ≡ check.id)
    → (checks : List SplitCheck)
    → select_split_check id (update_check id set_check checks)
      ≡ Option.map set_check (select_split_check id checks)
unfolding select_split_check update_rows
select-update_check id set_check keep [] = refl
select-update_check id set_check keep (c ∷ checks) = elim (Bool-cases (c.id == id)) [
  | inl hit ↦ rw (hit, keep c, hit) refl
  | inr miss ↦ rw (miss, miss) (select-update_check id set_check keep checks)
]

needed_check-cases :
    (o : Option SplitCheck) (check : SplitCheck)
    → needed_check o ≡ done check
    → (c : SplitCheck) × (o ≡ some c)
needed_check-cases none check h = absurd (no_done _ check h)
needed_check-cases (some c) check h = (c, refl)

-- After its end, a split check is not needed.
read_needed_check-resolved :
    (id : ℕ) (resolution : Resolution) (stock_split_id : Option ℕ) (now : ℕ)
    (tables after : SplitTables) (check : SplitCheck)
    → read_needed_check id tables ≡ done check
    → after.check_table ≡ write_resolution id resolution stock_split_id now tables.check_table
    → read_needed_check id after ≡ raised split_check_resolved
unfolding read_needed_check write_resolution
read_needed_check-resolved id resolution split now tables after check h e =
    let (c, found) = needed_check-cases (select_split_check id tables.check_table.checks) check h in
    let set_check = resolve_check resolution split now in
    rw (e, select-update_check id set_check (λ c. refl) tables.check_table.checks, found)
      (not_needed resolution c)
  where
    not_needed :
        (r : Resolution) (c : SplitCheck)
        → needed_check (some (resolve_check r split now c)) ≡ raised split_check_resolved
    not_needed Resolution.applied c = refl
    not_needed Resolution.kept c = refl

-- A stock split in the tables leaves the ledger and the split checks to the caller.
pub apply_stock_split_in_transaction-keeps :
    (decimals : Decimals) (change : StockSplitChange) (confirmation : SplitConfirmation) (now : ℕ)
    (tables : SplitTables) (applied : SplitTables × ℕ)
    → apply_stock_split_in_transaction decimals change confirmation now tables ≡ done applied
    → (applied.0.check_table ≡ tables.check_table) × (applied.0.ledger ≡ tables.ledger)
unfolding apply_stock_split_in_transaction
apply_stock_split_in_transaction-keeps decimals change confirmation now tables applied h =
    go (write_split_row change confirmation now tables.next_split_id tables.stock_splits) h
  where
    go :
        (o : Option (List StockSplit × ℕ))
        → change_stored_bars decimals change tables o ≡ done applied
        → (applied.0.check_table ≡ tables.check_table) × (applied.0.ledger ≡ tables.ledger)
    go none h = absurd (no_done _ applied h)
    go (some (splits, id)) h =
        of_done
          (λ (a : SplitTables × ℕ).
            (a.0.check_table ≡ tables.check_table) × (a.0.ledger ≡ tables.ledger))
          h (refl, refl)

module _ (decimals : Decimals) (rounding : Rounding) (market : SplitMarket) where
  -- What `change_ledger` writes when it ends: the transaction, after its two amounts.
  pub change_ledger-done :
      (ledger_change : LedgerChange) (check_id : Option ℕ) (now : ℕ) (tables after : SplitTables)
      → change_ledger decimals rounding market ledger_change check_id now tables ≡ done after
      → (last_close : ℤ) × (usd_per_unit : ℤ) × (applied : SplitTables × ℕ)
        × (apply_stock_split_in_transaction decimals ledger_change.change ledger_change.confirmation
              now tables
            ≡ done applied)
        × (done (
              write_adjustments decimals rounding ledger_change check_id last_close usd_per_unit now
                tables.ledger applied)
            ≡ done after)
  unfolding change_ledger change_in_transaction
  change_ledger-done ledger_change check_id now tables after h =
      go (find_last_close decimals market ledger_change.change)
        (convert_to_usd decimals market.amounts market.unit
          ledger_change.change.instrument.currency)
        h
    where
      go :
          (close unit : Option ℤ)
          → change_with decimals rounding ledger_change check_id now tables close unit ≡ done after
          → (last_close : ℤ) × (usd_per_unit : ℤ) × (applied : SplitTables × ℕ)
            × (apply_stock_split_in_transaction decimals ledger_change.change
                  ledger_change.confirmation now tables
                ≡ done applied)
            × (done (
                  write_adjustments decimals rounding ledger_change check_id last_close usd_per_unit
                    now tables.ledger applied)
                ≡ done after)
      go none unit h = absurd (no_done _ after h)
      go (some close) none h = absurd (no_done _ after h)
      go (some close) (some unit) h =
          let (applied, e1, e2) =
            and_then-done
              (apply_stock_split_in_transaction decimals ledger_change.change
                ledger_change.confirmation now tables)
              (λ a. done (
                write_adjustments decimals rounding ledger_change check_id close unit now
                  tables.ledger a))
              after h in
          (close, unit, applied, e1, e2)

  -- The split checks after a ledger change.
  pub change_ledger-check_table :
      (ledger_change : LedgerChange) (check_id : Option ℕ) (now : ℕ) (tables after : SplitTables)
      → change_ledger decimals rounding market ledger_change check_id now tables ≡ done after
      → (id : ℕ) × (after.check_table ≡ end_check check_id id now tables.check_table)
  change_ledger-check_table ledger_change check_id now tables after h =
      let (close, unit, applied, e1, e2) =
        change_ledger-done ledger_change check_id now tables after h in
      (
        applied.1,
        of_done
            (λ (t : SplitTables).
              t.check_table ≡ end_check check_id applied.1 now tables.check_table)
            e2
            (ap (λ table. end_check check_id applied.1 now table)
              (apply_stock_split_in_transaction-keeps decimals ledger_change.change
                ledger_change.confirmation now tables applied e1).0),
      )

  -- Both answers to a split check are refused.
  abbrev pub IsResolved : ℕ → SplitTables → Type 0
  IsResolved id tables =
      (later : ℕ)
      → (keep_ledger id later tables ≡ raised split_check_resolved)
        × (apply_split decimals rounding market id later tables ≡ raised split_check_resolved)

  refused :
      (id : ℕ) (tables : SplitTables)
      → read_needed_check id tables ≡ raised split_check_resolved
      → IsResolved id tables
  unfolding keep_ledger apply_split
  refused id tables h later = (rw h refl, rw h refl)

  keep_ledger-IsResolved :
      (id now : ℕ) (tables after : SplitTables)
      → keep_ledger id now tables ≡ done after
      → IsResolved id after
  unfolding keep_ledger
  keep_ledger-IsResolved id now tables after h =
      let (check, e1, e2) =
        and_then-done (read_needed_check id tables) (λ check. done (end_as_kept id now tables))
          after h in
      refused id after (
        of_done (λ (t : SplitTables). read_needed_check id t ≡ raised split_check_resolved) e2
          (read_needed_check-resolved id Resolution.kept none now tables (end_as_kept id now tables)
            check e1 refl))

  apply_split-IsResolved :
      (id now : ℕ) (tables after : SplitTables)
      → apply_split decimals rounding market id now tables ≡ done after
      → IsResolved id after
  unfolding apply_split
  apply_split-IsResolved id now tables after h =
      let (check, e1, e2) =
        and_then-done (read_needed_check id tables)
          (λ check.
            change_ledger decimals rounding market (change_of_check check) (some id) now tables)
          after h in
      let (split, e3) =
        change_ledger-check_table (change_of_check check) (some id) now tables after e2 in
      refused id after
        (read_needed_check-resolved id Resolution.applied (some split) now tables after check e1 e3)

  -- A "Split check needed" state ends once: after "Apply split" or "Keep ledger" of a split check has
  -- ended, both raise SplitCheckResolvedError for it.
  pub answer-IsResolved :
      (id now : ℕ) (tables after : SplitTables)
      → (keep_ledger id now tables ≡ done after)
        ⊎ (apply_split decimals rounding market id now tables ≡ done after)
      → (later : ℕ)
      → (keep_ledger id later after ≡ raised split_check_resolved)
        × (apply_split decimals rounding market id later after ≡ raised split_check_resolved)
  answer-IsResolved id now tables after (inl h) = keep_ledger-IsResolved id now tables after h
  answer-IsResolved id now tables after (inr h) = apply_split-IsResolved id now tables after h
