-- ===== src/Examples/SplitEvidence.antt =====
-- Runs of evidence A of a stock split of 2 for 1.
use mathlib.Core.List.{Memᴰ}
use atrade.Prelude.{map, ◌/◌, ◌≡◌, refl, ◌⊎◌, [], ◌∷◌}
use atrade.Prelude.Int.{pos, magnitude, ◌-ℤ◌, ◌*ℤ◌}
use atrade.Ledger.{Decimals, same_instrument}
use atrade.SplitChecks.Bars.{
  SplitTables, StoredBar, change_bars, user_apply, done, apply_stock_split_in_transaction,
}
use atrade.SplitChecks.Checks.{StockSplitCandidate, to_change}
use atrade.SplitChecks.Evidence.{
  Fractions, convert_bar, record_evidence, read_stock_split_candidates,
}
use atrade.SplitChecks.Candidates.{record_evidence-once, change_bars-convert_bar}
use atrade.SplitChecks.Confirmed.{HasOneSplit, apply_stock_split_in_transaction-candidate}
use atrade.Examples.StockSplits.{stock, bar, bar_tables, change}

-- The stored bar has the close 50, and IBKR says 25 for that day: a stock split of 2 for 1.
abbrev fractions : Fractions
fractions = record {
  of_decimal = λ z. (magnitude z, 1);
  limit_denominator = λ f k. f;
  of_int = λ n. pos n;
}

abbrev quotients : Decimals
quotients = record { multiply = λ a b. a *ℤ b; divide = λ a b. pos (magnitude a / magnitude b) }

abbrev ibkr_bar : StoredBar
ibkr_bar = record bar { close = pos 25 }

abbrev with_candidate : SplitTables
with_candidate = record_evidence quotients fractions stock bar (ibkr_bar ∷ []) 100 bar_tables

abbrev candidate : StockSplitCandidate
candidate = record { id = 1; instrument = stock; ex_date_utc = 86400000080; split_ratio = pos 2 }

reads_candidate : read_stock_split_candidates with_candidate.stock_splits ≡ candidate ∷ []
unfolding read_stock_split_candidates record_evidence ◌-ℤ◌ ◌*ℤ◌
reads_candidate = refl

record_evidence-once_example :
    (with_candidate.stock_splits ≡ bar_tables.stock_splits)
    ⊎ ((record_evidence quotients fractions stock bar
          (ibkr_bar ∷ [])
          200
          with_candidate).stock_splits
        ≡ with_candidate.stock_splits)
record_evidence-once_example =
    record_evidence-once quotients fractions stock bar (ibkr_bar ∷ []) (ibkr_bar ∷ []) 100 200
      bar_tables

abbrev later_bar : StoredBar
later_bar = record ibkr_bar { start_utc = 95 }

change_bars-convert_bar_example :
    change_bars quotients change
      (map (convert_bar quotients ((90, pos 2) ∷ [])) (ibkr_bar ∷ later_bar ∷ []))
    ≡ ibkr_bar ∷ later_bar ∷ []
unfolding ◌*ℤ◌ same_instrument
change_bars-convert_bar_example =
    change_bars-convert_bar quotients change (ibkr_bar ∷ later_bar ∷ []) (refl, (refl, tt))
      ((refl, refl, refl, refl, refl), ((refl, refl, refl, refl, refl), tt))

one_split : HasOneSplit with_candidate.stock_splits
unfolding record_evidence ◌-ℤ◌ ◌*ℤ◌
one_split = (refl, tt)

has_candidate : Memᴰ candidate (read_stock_split_candidates with_candidate.stock_splits)
has_candidate = rw reads_candidate (Memᴰ.head refl)

apply_stock_split_in_transaction-candidate_example :
    (after : SplitTables) × (apply_stock_split_in_transaction quotients
        (to_change candidate)
        user_apply
        200
        with_candidate
      ≡ done (after, 1))
    × ¬ Memᴰ candidate (read_stock_split_candidates after.stock_splits)
apply_stock_split_in_transaction-candidate_example =
    apply_stock_split_in_transaction-candidate quotients user_apply 200 candidate with_candidate
      one_split has_candidate
