-- ===== src/SplitChecks/Candidates.antt =====
-- Evidence A is recorded once, and the bars that wait for its confirmation get their prices back.
use atrade.Prelude.{
  ℕ, ◌+◌, ◌≡◌, ◌⊎◌, inl, inr, refl, true, ◌&&◌, ltb, any, List, [], ◌∷◌, ◌++◌, Option, none, some,
  arith, Bool-cases, map, All, any-append-last,
}
use atrade.Prelude.Int.{ℤ}
use atrade.Ledger.{Instrument, Decimals, same_instrument}
use atrade.Ledger.Keys.{same_instrument_refl}
use atrade.SplitChecks.Bars.{
  SplitTables, StockSplit, StoredBar, StockSplitChange, is_split_of, change_bars,
}
use atrade.SplitChecks.Evidence.{
  Fractions, select_waiting_splits, candidate_row, insert_candidate, one_day, record_ratio,
  record_evidence, convert_bar, find_bar_at, ratio_at, is_waiting,
}

-- The new candidate waits.
waits :
    (change : StockSplitChange) (now id : ℕ) (splits : List StockSplit)
    → select_waiting_splits change.instrument (splits ++ candidate_row change now id ∷ [])
      ≡ select_waiting_splits change.instrument splits
        ++ (change.ex_date_utc, change.split_ratio) ∷ []
unfolding select_waiting_splits
waits change now id [] = rw (same_instrument_refl change.instrument) refl
waits change now id (s ∷ splits) =
    elim (Bool-cases
      (is_waiting s.confirmation && same_instrument s.instrument change.instrument)) [
        | inl hit ↦ rw (hit, waits change now id splits) refl
        | inr miss ↦ rw (miss, waits change now id splits) refl
      ]

module _ (decimals : Decimals) (fractions : Fractions) (i : Instrument) (bar : StoredBar) where
  known-record_ratio :
      (now : ℕ) (tables : SplitTables) (ratio : Option ℤ)
      → any
          (λ (split : ℕ × ℤ). ltb bar.start_utc split.0)
          (select_waiting_splits i tables.stock_splits)
        ≡ true
      → (record_ratio i bar now tables ratio).stock_splits ≡ tables.stock_splits
  known-record_ratio now tables none h = refl
  known-record_ratio now tables (some r) h = rw h refl

  record_ratio-once :
      (now now' : ℕ) (tables : SplitTables) (ratio ratio' : Option ℤ)
      → let after = record_ratio i bar now tables ratio in
        (after.stock_splits ≡ tables.stock_splits)
        ⊎ ((record_ratio i bar now' after ratio').stock_splits ≡ after.stock_splits)
  unfolding insert_candidate
  record_ratio-once now now' tables none ratio' = inl refl
  record_ratio-once now now' tables (some r) ratio' =
      let change : StockSplitChange = record {
        instrument = i;
        ex_date_utc = bar.start_utc + one_day;
        split_ratio = r;
      } in
      let later : ltb bar.start_utc (bar.start_utc + one_day) ≡ true = ground arith in
      elim (Bool-cases (
        any (λ (split : ℕ × ℤ). ltb bar.start_utc split.0)
          (select_waiting_splits i tables.stock_splits))) [
            | inl known ↦ rw known (inl refl)
            | inr open_day ↦ elim (Bool-cases (any (is_split_of change) tables.stock_splits)) [
              | inl taken ↦ rw (open_day, taken) (inl refl)
              | inr new ↦
                  rw (open_day, new)
                    (inr (
                      known-record_ratio now' _ ratio' (
                        rw (waits change now tables.next_split_id tables.stock_splits) (
                          any-append-last (λ (split : ℕ × ℤ). ltb bar.start_utc split.0)
                            (select_waiting_splits i tables.stock_splits)
                            (bar.start_utc + one_day, r) later))))
            ]
          ]

  -- The same stored day gives no second candidate: when the evidence of a stored bar added a row to
  -- stock_split, the evidence of the same stored bar afterwards, with any bars of IBKR, leaves the rows
  -- as they are.
  pub record_evidence-once :
      (bars bars' : List StoredBar) (now now' : ℕ) (tables : SplitTables)
      → let after = record_evidence decimals fractions i bar bars now tables in
        (after.stock_splits ≡ tables.stock_splits)
        ⊎ ((record_evidence decimals fractions i bar bars' now' after).stock_splits
            ≡ after.stock_splits)
  unfolding record_evidence
  record_evidence-once bars bars' now now' tables =
      record_ratio-once now now' tables
        (ratio_at decimals fractions bar (find_bar_at bar.start_utc bars))
        (ratio_at decimals fractions bar (find_bar_at bar.start_utc bars'))

-- A bar of IBKR whose prices and volume come back exactly from the stored form.
abbrev pub IsExact : Decimals → ℤ → StoredBar → Type 0
IsExact decimals r bar =
    (decimals.divide (decimals.multiply bar.open_price r) r ≡ bar.open_price)
    × (decimals.divide (decimals.multiply bar.high r) r ≡ bar.high)
    × (decimals.divide (decimals.multiply bar.low r) r ≡ bar.low)
    × (decimals.divide (decimals.multiply bar.close r) r ≡ bar.close)
    × (decimals.multiply (decimals.divide bar.volume r) r ≡ bar.volume)

-- Bars of IBKR for one instrument that are saved in the old form while a stock split waits have the
-- prices and volumes of IBKR again after the change of the stored bars, when each value of theirs comes
-- back exactly: the change divides each bar before the ex-date once, and no later bar.
pub change_bars-convert_bar :
    (decimals : Decimals) (change : StockSplitChange) (bars : List StoredBar)
    → All (λ (bar : StoredBar). same_instrument bar.instrument change.instrument ≡ true) bars
    → All (IsExact decimals change.split_ratio) bars
    → change_bars decimals change
        (map (convert_bar decimals ((change.ex_date_utc, change.split_ratio) ∷ [])) bars)
      ≡ bars
unfolding change_bars convert_bar
change_bars-convert_bar decimals change [] own exact = refl
change_bars-convert_bar decimals change (b ∷ bars) own exact =
    let rest = change_bars-convert_bar decimals change bars own.1 exact.1 in
    elim (Bool-cases (ltb b.start_utc change.ex_date_utc)) [
      | inl old ↦ let (o, h, l, c, v) = exact.0 in rw (old, own.0, old, rest, o, h, l, c, v) refl
      | inr new ↦ rw (new, own.0, new, rest) refl
    ]
