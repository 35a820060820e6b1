-- ===== src/SplitChecks/BothEvidences.antt =====
-- The daily check changes the ledger only with both evidences of a stock split.
use atrade.Prelude.{
  ℕ, ◌≡◌, ◌⊎◌, inl, inr, refl, ap, ◌∙◌, [], true, not, ◌&&◌, List, any, Option, none, some, arith,
  Bool-cases,
}
use mathlib.Core.Option.{none-ne-some}
use atrade.Prelude.Int.{ℤ, is_zero}
use atrade.Ledger.{Owner, Decimals, sum_owner_positions}
use atrade.Ledger.Table.{select_entries}
use atrade.Splits.{Rounding, SplitEvidence, find_split_evidence, sum_quantities}
use atrade.SplitChecks.{is_needed, SplitCheck, has_stock_split_check, select_split_checks}
use atrade.SplitChecks.Bars.{SplitTables, bar_evidence, done, apply_stock_split_in_transaction}
use atrade.SplitChecks.Changes.{SplitMarket, find_owner_quantities}
use atrade.SplitChecks.Checks.{
  StockSplitCandidate, InstrumentCheck, outcome, confirmed, InstrumentCheckOutcome, to_change,
  unchecked, ratio_of, checks_of, is_kept_with, is_confirmed, is_incomplete, need_check,
  confirm_or_need, check_with_evidence, check_unheld, check_held, check_instrument,
}
use atrade.SplitChecks.Once.{of_done, and_then-done, apply_stock_split_in_transaction-keeps}

is_confirmed-eq :
    (e : SplitEvidence) → is_confirmed e ≡ true → (r : ℤ) × (e ≡ SplitEvidence.confirmed r)
is_confirmed-eq (SplitEvidence.confirmed r) h = (r, refl)
is_confirmed-eq (SplitEvidence.bar_ratio_only r) h = absurd (ground arith)
is_confirmed-eq (SplitEvidence.position_only r) h = absurd (ground arith)
is_confirmed-eq (SplitEvidence.ratios_differ r) h = absurd (ground arith)
is_confirmed-eq (SplitEvidence.share_count_differs r) h = absurd (ground arith)
is_confirmed-eq (SplitEvidence.unusual_ratio r) h = absurd (ground arith)

unchecked-some :
    (checks : List SplitCheck) (o : Option StockSplitCandidate) (c : StockSplitCandidate)
    → unchecked checks o ≡ some c
    → o ≡ some c
unchecked-some checks none c h = h
unchecked-some checks (some d) c h = elim (Bool-cases (has_stock_split_check d.id checks)) [
  | inl known ↦ absurd (none-ne-some c (rw known at h))
  | inr new ↦ rw new at h
]

module _ (decimals : Decimals) (rounding : Rounding) (market : SplitMarket)
    (check : InstrumentCheck) (now : ℕ) (tables : SplitTables)
    (result : SplitTables × InstrumentCheckOutcome) where
  -- Evidence A of the bars and the shares at IBKR confirm the same stock split.
  abbrev pub HasBothEvidences : Option StockSplitCandidate → ℤ → Type 0
  HasBothEvidences candidate quantity_before =
      (c : StockSplitCandidate) × (r : ℤ) × (candidate ≡ some c)
      × (find_split_evidence decimals rounding (some c.split_ratio) quantity_before
            check.account_quantity
          ≡ some (SplitEvidence.confirmed r))

  need_check-ledger :
      (candidate : Option StockSplitCandidate) (evidence : SplitEvidence) (quantity_before : ℤ)
      → need_check check candidate evidence quantity_before now tables ≡ done result
      → result.0.ledger ≡ tables.ledger
  need_check-ledger candidate evidence quantity h =
      elim (Bool-cases (is_incomplete evidence && not check.is_last_try)) [
        | inl again ↦
            of_done (λ (r : SplitTables × InstrumentCheckOutcome). r.0.ledger ≡ tables.ledger)
              (rw again at h) refl
        | inr last ↦
            of_done (λ (r : SplitTables × InstrumentCheckOutcome). r.0.ledger ≡ tables.ledger)
              (rw last at h) refl
      ]

  confirm_or_need-ledger :
      (candidate : Option StockSplitCandidate) (evidence : SplitEvidence)
      (owners : List (Owner × ℤ))
      → find_split_evidence decimals rounding
          (ratio_of candidate)
          (sum_quantities owners)
          check.account_quantity
        ≡ some evidence
      → confirm_or_need decimals rounding market check candidate evidence owners now tables
        ≡ done result
      → (result.0.ledger ≡ tables.ledger) ⊎ HasBothEvidences candidate (sum_quantities owners)
  confirm_or_need-ledger none evidence owners found h =
      inl (need_check-ledger none evidence (sum_quantities owners) h)
  confirm_or_need-ledger (some c) evidence owners found h =
      elim (Bool-cases (is_confirmed evidence)) [
        | inl both ↦
            let (r, e) = is_confirmed-eq evidence both in
            inr (c, r, refl, found ∙ ap (λ x. some x) e)
        | inr other ↦
            inl (need_check-ledger (some c) evidence (sum_quantities owners) (rw other at h))
      ]

  unheld-ledger :
      (candidate : Option StockSplitCandidate)
      → check_unheld decimals rounding market candidate now tables ≡ done result
      → result.0.ledger ≡ tables.ledger
  unheld-ledger none h =
      of_done (λ (r : SplitTables × InstrumentCheckOutcome). r.0.ledger ≡ tables.ledger) h refl
  unheld-ledger (some c) h =
      let (applied, e1, e2) =
        and_then-done
          (apply_stock_split_in_transaction decimals (to_change c) bar_evidence now tables)
          (λ applied. done (applied.0, outcome confirmed [])) result h in
      of_done (λ (r : SplitTables × InstrumentCheckOutcome). r.0.ledger ≡ tables.ledger) e2
        (apply_stock_split_in_transaction-keeps decimals (to_change c) bar_evidence now tables
          applied e1).1

  with_evidence-ledger :
      (candidate : Option StockSplitCandidate) (owners : List (Owner × ℤ)) (items : List SplitCheck)
      (evidence : Option SplitEvidence)
      → find_split_evidence decimals rounding
          (ratio_of candidate)
          (sum_quantities owners)
          check.account_quantity
        ≡ evidence
      → check_with_evidence decimals rounding market check candidate owners items now tables
          evidence
        ≡ done result
      → (result.0.ledger ≡ tables.ledger) ⊎ HasBothEvidences candidate (sum_quantities owners)
  with_evidence-ledger candidate owners items none found h =
      inl
        (of_done (λ (r : SplitTables × InstrumentCheckOutcome). r.0.ledger ≡ tables.ledger) h refl)
  with_evidence-ledger candidate owners items (some evidence) found h =
      elim (Bool-cases (any (is_kept_with (sum_quantities owners) check.account_quantity) items)) [
        | inl kept_before ↦ inl (
            of_done (λ (r : SplitTables × InstrumentCheckOutcome). r.0.ledger ≡ tables.ledger)
              (rw kept_before at h) refl)
        | inr new ↦ confirm_or_need-ledger candidate evidence owners found (rw new at h)
      ]

  held-ledger :
      (candidate : Option StockSplitCandidate) (owners : List (Owner × ℤ)) (items : List SplitCheck)
      → check_held decimals rounding market check candidate owners items now tables ≡ done result
      → (result.0.ledger ≡ tables.ledger) ⊎ HasBothEvidences candidate (sum_quantities owners)
  held-ledger candidate owners items h = elim (Bool-cases (is_zero (sum_quantities owners))) [
    | inl unheld ↦ inl (unheld-ledger candidate (rw unheld at h))
    | inr holders ↦ with_evidence-ledger candidate owners items _ refl (rw holders at h)
  ]

  -- A check of an instrument that ends leaves the ledger as it is, or the check has a candidate and
  -- `find_split_evidence` says for the ratio of the candidate, the shares of the owners and the shares
  -- of the account at IBKR that both confirm the stock split.
  pub check_instrument-HasBothEvidences :
      check_instrument decimals rounding market check now tables ≡ done result
      → let entries = select_entries tables.ledger check.account in
        let owners =
          find_owner_quantities (sum_owner_positions decimals entries) check.instrument in
        (result.0.ledger ≡ tables.ledger) ⊎ HasBothEvidences check.candidate (sum_quantities owners)
  unfolding check_instrument
  check_instrument-HasBothEvidences h =
      let checks = tables.check_table.checks in
      let items = checks_of check.instrument (select_split_checks check.account checks) in
      let owners =
        find_owner_quantities
          (sum_owner_positions decimals (select_entries tables.ledger check.account))
          check.instrument in
      elim (Bool-cases (any (λ (item : SplitCheck). is_needed item.status) items)) [
        | inl in_state ↦ inl (
            of_done (λ (r : SplitTables × InstrumentCheckOutcome). r.0.ledger ≡ tables.ledger)
              (rw in_state at h) refl)
        | inr free ↦
            elim (held-ledger (unchecked checks check.candidate) owners items (rw free at h)) [
              | inl same ↦ inl same
              | inr (c, r, e, found) ↦ inr (c, r, unchecked-some checks check.candidate c e, found)
            ]
      ]
