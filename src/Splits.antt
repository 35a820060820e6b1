-- ===== src/Splits.antt =====
-- The ledger change at a stock split and the evidence of a stock split
-- (backend/src/atrade/paper_trading/stock_split_rules.py). Python's rounding of decimals and its
-- fractions are parameters.
pub mod Shares
use atrade.Prelude.{
  ℕ, Bool, true, false, not, ◌&&◌, ◌||◌, List, [], ◌∷◌, ◌++◌, Option, none, some, if◌then◌else◌,
}
use atrade.Prelude.Int.{ℤ, pos, ◌+ℤ◌, ◌-ℤ◌, ◌*ℤ◌, magnitude, leb_ℤ, eqb_ℤ, is_zero}
use atrade.Ledger.{Owner, by_hand, Decimals}

pub record SplitAdjustment : Type 0 where
  pub owner : Owner
  pub quantity_change : ℤ
  pub cash_in_lieu : ℤ
  pub price : Option ℤ

-- `Decimal.quantize(SPLIT_QUANTITY_PLACES)`, `math.floor` as a Decimal, and
-- `Fraction.limit_denominator(1000)`, its numerator and its denominator.
pub record Rounding : Type 0 where
  pub quantize : ℤ → ℤ
  pub floor : ℤ → ℤ
  pub to_fraction : ℤ → ℤ × ℤ

unfoldable pub find_whole_and_part : Rounding → ℤ → ℤ × ℤ
find_whole_and_part rounding quantity =
    let rounded_quantity = rounding.quantize quantity in
    let whole = rounding.floor rounded_quantity in (whole, rounded_quantity -ℤ whole)

-- What the loop of `calculate_split_adjustments` changes.
pub record Sums : Type 0 where
  pub adjustments : List SplitAdjustment
  pub new_quantity_sum : ℤ
  pub part_sum : ℤ

abbrev pub owner_adjustment : Owner → ℤ → ℤ → SplitAdjustment
owner_adjustment owner change cash = record {
  owner = owner;
  quantity_change = change;
  cash_in_lieu = cash;
  price = none;
}

unfoldable pub adjust_owners : Decimals → Rounding → ℤ → ℤ → List (Owner × ℤ) → Sums → Sums
unfolding find_whole_and_part
adjust_owners decimals rounding split_ratio share_price [] sums = sums
adjust_owners decimals rounding split_ratio share_price ((owner, quantity) ∷ owners) sums =
    let (new_quantity, part) =
      find_whole_and_part rounding (decimals.multiply quantity split_ratio) in
    adjust_owners decimals rounding split_ratio share_price owners (record {
      adjustments =
          sums.adjustments
          ++ owner_adjustment owner (new_quantity -ℤ quantity) (decimals.multiply part share_price)
            ∷ [];
      new_quantity_sum = sums.new_quantity_sum +ℤ new_quantity;
      part_sum = sums.part_sum +ℤ part;
    })

unfoldable pub sum_quantities : List (Owner × ℤ) → ℤ
sum_quantities [] = pos 0
sum_quantities ((owner, quantity) ∷ owners) = quantity +ℤ sum_quantities owners

-- The difference row of "By hand".
abbrev pub add_difference : ℤ → ℤ → ℤ → List SplitAdjustment → List SplitAdjustment
add_difference difference cash_difference share_price adjustments =
    if not (is_zero difference) || not (is_zero cash_difference)
    then adjustments
      ++ record {
        owner = by_hand;
        quantity_change = difference;
        cash_in_lieu = cash_difference;
        price = some share_price;
      }
        ∷ []
    else adjustments

unfoldable pub calculate_split_adjustments :
    Decimals → Rounding → List (Owner × ℤ) → ℤ → ℤ → ℤ → List SplitAdjustment
unfolding adjust_owners sum_quantities
calculate_split_adjustments decimals rounding owner_quantities split_ratio account_quantity_after
      last_close =
    let share_price = decimals.divide last_close split_ratio in
    let sums =
      adjust_owners decimals rounding split_ratio share_price owner_quantities
        (record { adjustments = []; new_quantity_sum = pos 0; part_sum = pos 0 }) in
    let account_part =
      (find_whole_and_part rounding
        (decimals.multiply (sum_quantities owner_quantities) split_ratio)).1 in
    add_difference (account_quantity_after -ℤ sums.new_quantity_sum)
      (decimals.multiply (account_part -ℤ sums.part_sum) share_price) share_price sums.adjustments

abbrev pub max_usual_numerator : ℤ
max_usual_numerator = pos 20

abbrev pub max_usual_denominator : ℤ
max_usual_denominator = pos 10

unfoldable pub is_usual_ratio : Rounding → ℤ → Bool
is_usual_ratio rounding ratio =
    let (numerator, denominator) = rounding.to_fraction ratio in
    eqb_ℤ numerator (pos 1)
    || eqb_ℤ denominator (pos 1)
    || (leb_ℤ numerator max_usual_numerator && leb_ℤ denominator max_usual_denominator)

-- `SplitEvidence` by its kind, with the ratio.
pub data SplitEvidence : Type 0 where
  confirmed bar_ratio_only position_only ratios_differ share_count_differs unusual_ratio :
      (ratio : ℤ) → SplitEvidence

-- `abs(position_ratio / to_fraction(bar_ratio) - 1) <= RATIO_TOLERANCE`, which is 3 / 100, for a
-- quantity before the split and a ratio above 0: multiplied by all denominators.
unfoldable pub is_near : ℤ × ℤ → ℤ → ℤ → Bool
is_near (numerator, denominator) quantity_before quantity_after =
    let expected = quantity_before *ℤ numerator in
    leb_ℤ (pos (magnitude (quantity_after *ℤ denominator -ℤ expected)) *ℤ pos 100)
      (pos 3 *ℤ expected)

unfoldable pub find_bar_evidence : Decimals → Rounding → ℤ → ℤ → ℤ → SplitEvidence
unfolding is_usual_ratio find_whole_and_part is_near
find_bar_evidence decimals rounding bar_ratio quantity_before quantity_after =
    if eqb_ℤ quantity_after quantity_before
    then bar_ratio_only bar_ratio
    else if not (is_usual_ratio rounding bar_ratio)
    then unusual_ratio bar_ratio
    else if eqb_ℤ quantity_after
        (find_whole_and_part rounding (decimals.multiply quantity_before bar_ratio)).0
    then confirmed bar_ratio
    else if is_near (rounding.to_fraction bar_ratio) quantity_before quantity_after
    then share_count_differs bar_ratio
    else ratios_differ bar_ratio

-- `Decimal(numerator) / Decimal(denominator)` of the reduced fraction is the quotient.
unfoldable pub find_split_evidence : Decimals → Rounding → Option ℤ → ℤ → ℤ → Option SplitEvidence
unfolding find_bar_evidence
find_split_evidence decimals rounding none quantity_before quantity_after =
    if eqb_ℤ quantity_after quantity_before || leb_ℤ quantity_after (pos 0)
    then none
    else some (position_only (decimals.divide quantity_after quantity_before))
find_split_evidence decimals rounding (some bar_ratio) quantity_before quantity_after =
    some (find_bar_evidence decimals rounding bar_ratio quantity_before quantity_after)
