-- ===== src/Splits/Shares.antt =====
-- The shares after a stock split.
use atrade.Prelude.{◌≡◌, List, [], ◌∷◌, ◌++◌, Bool-cases, inl, inr, ◌∙◌, ap}
use atrade.Prelude.Int.{ℤ, pos, ◌+ℤ◌, ◌-ℤ◌, is_zero, is_zero-eq, int_laws}
use atrade.Ledger.{Owner, Decimals}
use atrade.Splits.{
  SplitAdjustment, Rounding, Sums, owner_adjustment, find_whole_and_part, adjust_owners,
  sum_quantities, add_difference, calculate_split_adjustments,
}

abbrev pub sum_changes : List SplitAdjustment → ℤ
sum_changes [] = pos 0
sum_changes (a ∷ rest) = a.quantity_change +ℤ sum_changes rest

sum_changes-append :
    (xs ys : List SplitAdjustment) → sum_changes (xs ++ ys) ≡ sum_changes xs +ℤ sum_changes ys
sum_changes-append [] ys = omega int_laws
sum_changes-append (a ∷ xs) ys = rw (sum_changes-append xs ys) (omega int_laws)

sum_changes-add_difference :
    (difference cash price : ℤ) (xs : List SplitAdjustment)
    → sum_changes (add_difference difference cash price xs) ≡ sum_changes xs +ℤ difference
sum_changes-add_difference d cash price xs = elim (Bool-cases (is_zero d)) [
  | inr more ↦
      rw more (sum_changes-append xs _ ∙ ap (λ (z : ℤ). sum_changes xs +ℤ z) (omega int_laws))
  | inl zero ↦ elim (Bool-cases (is_zero cash)) [
    | inl none_left ↦ rw (zero, none_left, is_zero-eq d zero) (omega int_laws)
    | inr more ↦
        rw (zero, more)
          (sum_changes-append xs _ ∙ ap (λ (z : ℤ). sum_changes xs +ℤ z) (omega int_laws))
  ]
]

module _ (decimals : Decimals) (rounding : Rounding) (ratio price : ℤ) where
  adjust_owners-sum :
      (owners : List (Owner × ℤ)) (sums : Sums)
      → let after = adjust_owners decimals rounding ratio price owners sums in
        sum_changes after.adjustments
        ≡ sum_changes sums.adjustments
          +ℤ (after.new_quantity_sum -ℤ sums.new_quantity_sum)
          -ℤ sum_quantities owners
  unfolding adjust_owners sum_quantities
  adjust_owners-sum [] sums = omega int_laws
  adjust_owners-sum ((owner, quantity) ∷ owners) sums =
      let (whole, part) = find_whole_and_part rounding (decimals.multiply quantity ratio) in
      let row = owner_adjustment owner (whole -ℤ quantity) (decimals.multiply part price) in
      let next : Sums = record {
        adjustments = sums.adjustments ++ row ∷ [];
        new_quantity_sum = sums.new_quantity_sum +ℤ whole;
        part_sum = sums.part_sum +ℤ part;
      } in
      rw (adjust_owners-sum owners next, sum_changes-append sums.adjustments (row ∷ []))
        (omega int_laws)

abbrev nothing_yet : Sums
nothing_yet = record { adjustments = []; new_quantity_sum = pos 0; part_sum = pos 0 }

-- The changes of the owners and the difference row bring the sum of the owners' shares to the shares
-- of the account at IBKR after the stock split.
pub calculate_split_adjustments-sum :
    (decimals : Decimals) (rounding : Rounding) (owners : List (Owner × ℤ))
    (ratio account_quantity_after last_close : ℤ)
    → sum_quantities owners
        +ℤ sum_changes (
            calculate_split_adjustments decimals rounding owners ratio account_quantity_after
              last_close)
      ≡ account_quantity_after
unfolding calculate_split_adjustments
calculate_split_adjustments-sum decimals rounding owners ratio account last_close =
    let price = decimals.divide last_close ratio in
    let sums = adjust_owners decimals rounding ratio price owners nothing_yet in
    rw
      (
        sum_changes-add_difference (account -ℤ sums.new_quantity_sum) _ price sums.adjustments,
        adjust_owners-sum decimals rounding ratio price owners nothing_yet,
      )
      (omega int_laws)
