-- ===== src/SplitChecks/BarsOnce.antt =====
-- A stock split divides the stored bars once.
use atrade.Prelude.{
  ℕ, ◌≡◌, refl, true, false, ◌==◌, List, [], ◌∷◌, Option, none, some, arith, Bool-cases, inl, inr,
  of_some,
}
use mathlib.Core.Option.{none-ne-some}
use atrade.Prelude.Int.{ℤ}
use atrade.Ledger.{Decimals}
use atrade.Ledger.Keys.{same_instrument_refl}
use atrade.SplitChecks.Bars.{
  StockSplit, StockSplitChange, SplitConfirmation, SplitTables, StockSplitSource,
  StoredConfirmation, from_ibkr, ibkr_evidence, databento_import, stock_split_confirmed, raised,
  done, is_split_of, is_candidate, confirm_split, new_split, keep_first, write_split_row,
  change_stored_bars, apply_stock_split_in_transaction,
}
use atrade.SplitChecks.Once.{no_done, of_done}

pub confirmed_split :
    (source : StockSplitSource) (c : StoredConfirmation) → is_candidate source (some c) ≡ false
confirmed_split ibkr_evidence c = refl
confirmed_split databento_import c = refl

-- The same stock split, with another ratio.
abbrev pub with_ratio : StockSplitChange → ℤ → StockSplitChange
with_ratio change ratio = record change { split_ratio = ratio }

keep_first-some :
    (split : StockSplit) (o : Option (List StockSplit × ℕ)) (after : List StockSplit × ℕ)
    → keep_first split o ≡ some after
    → (r : List StockSplit × ℕ) × (o ≡ some r) × (some (split ∷ r.0, r.1) ≡ some after)
keep_first-some split none after h = absurd (none-ne-some after h)
keep_first-some split (some (splits, id)) after h = ((splits, id), refl, h)

module _ (change : StockSplitChange) (ratio : ℤ) (c c' : SplitConfirmation) (now now' : ℕ)
    (next_id next_id' : ℕ) where
  -- The second write of the same stock split.
  abbrev again : List StockSplit → Option (List StockSplit × ℕ)
  again splits = write_split_row (with_ratio change ratio) c' now' next_id' splits

  new_split-again : again (new_split change c now next_id ∷ []) ≡ none
  unfolding write_split_row is_split_of
  new_split-again =
      let same : (change.ex_date_utc == change.ex_date_utc) ≡ true = ground arith in
      rw (same_instrument_refl change.instrument, same) refl

  confirmed-is_split_of :
      (s : StockSplit)
      → is_split_of (with_ratio change ratio) (confirm_split change c now s) ≡ is_split_of change s
  unfolding is_split_of
  confirmed-is_split_of s = refl

  other-is_split_of :
      (s : StockSplit) → is_split_of (with_ratio change ratio) s ≡ is_split_of change s
  unfolding is_split_of
  other-is_split_of s = refl

  write_split_row-twice :
      (splits : List StockSplit) (after : List StockSplit × ℕ)
      → write_split_row change c now next_id splits ≡ some after
      → again after.0 ≡ none
  unfolding write_split_row
  write_split_row-twice [] after h =
      of_some (λ (a : List StockSplit × ℕ). again a.0 ≡ none) h new_split-again
  write_split_row-twice (s ∷ splits) after h = elim (Bool-cases (is_split_of change s)) [
    | inl hit ↦ elim (Bool-cases (is_candidate s.source s.confirmation)) [
      | inl open_split ↦
          of_some (λ (a : List StockSplit × ℕ). again a.0 ≡ none) (rw (hit, open_split) at h)
            (confirmed-again s splits hit)
      | inr closed ↦ absurd (none-ne-some after (rw (hit, closed) at h))
    ]
    | inr miss ↦
        let (r, e1, e2) = keep_first-some s _ after (rw miss at h) in
        of_some (λ (a : List StockSplit × ℕ). again a.0 ≡ none) e2
          (other-again s r.0 miss (write_split_row-twice splits r e1))
  ]
    where
      confirmed-again :
          (s : StockSplit) (splits : List StockSplit)
          → is_split_of change s ≡ true
          → again (confirm_split change c now s ∷ splits) ≡ none
      confirmed-again s splits hit =
          rw (confirmed-is_split_of s, hit, confirmed_split s.source (from_ibkr c)) refl

      other-again :
          (s : StockSplit) (splits : List StockSplit)
          → is_split_of change s ≡ false
          → again splits ≡ none
          → again (s ∷ splits) ≡ none
      other-again s splits miss h = rw (other-is_split_of s, miss, h) refl

change_stored_bars-done :
    (decimals : Decimals) (change : StockSplitChange) (tables : SplitTables)
    (o : Option (List StockSplit × ℕ)) (applied : SplitTables × ℕ)
    → change_stored_bars decimals change tables o ≡ done applied
    → (r : List StockSplit × ℕ) × (o ≡ some r) × (r.0 ≡ applied.0.stock_splits)
change_stored_bars-done decimals change tables none applied h = absurd (no_done _ applied h)
change_stored_bars-done decimals change tables (some (splits, id)) applied h =
    ((splits, id), refl, of_done (λ (a : SplitTables × ℕ). splits ≡ a.0.stock_splits) h refl)

-- After a stock split has changed the stored bars, the same stock split of the instrument, also with
-- another ratio, raises StockSplitConfirmedError: the bars are not divided a second time.
pub apply_stock_split_in_transaction-twice :
    (change : StockSplitChange) (ratio : ℤ) (c c' : SplitConfirmation) (now now' : ℕ)
    (decimals : Decimals) (tables : SplitTables) (applied : SplitTables × ℕ)
    → apply_stock_split_in_transaction decimals change c now tables ≡ done applied
    → apply_stock_split_in_transaction decimals (with_ratio change ratio) c' now' applied.0
      ≡ raised stock_split_confirmed
unfolding apply_stock_split_in_transaction
apply_stock_split_in_transaction-twice change ratio c c' now now' decimals tables applied h =
    let (r, e1, e2) =
      change_stored_bars-done decimals change tables
        (write_split_row change c now tables.next_split_id tables.stock_splits) applied h in
    let again_none : write_split_row (with_ratio change ratio) c' now' applied.0.next_split_id
          applied.0.stock_splits
        ≡ none =
      rw (← e2) (
        write_split_row-twice change ratio c c' now now' tables.next_split_id
          applied.0.next_split_id tables.stock_splits r e1) in
    rw again_none refl
