-- ===== src/Backtests/GridValues.antt =====
-- The values of the parameters of a grid.
use atrade.Prelude.{
  or_false, ℕ, zero, suc, ◌+◌, ◌/◌, ◌≤◌, ◌≡◌, refl, Bool, true, false, not, ◌&&◌, ◌||◌, List, [],
  ◌∷◌, map, length, Option, none, some, if◌then◌else◌, ltb, arith, All,
}
use atrade.Prelude.Int.{ℤ, pos, magnitude, ◌+ℤ◌, ◌-ℤ◌, ◌*ℤ◌, ◌≤ℤ◌, ltb_ℤ, leb_ℤ}
use atrade.Backtests.Grid.{
  ParameterType, GridEntry, ParameterValue, bool_value, int_value, float_value, to_int, GridProblem,
  step_not_positive, end_before_start, needs_integers, more_runs, Grid, problem, made, Numbers,
  is_integral, values_from, to_value, make_range_values, with_range, without_range, make_values,
  max_sweep_runs,
}
use atrade.Backtests.GridNumbers.{step_in_range, value_integral, to_int_exact}

pub length-values_from :
    (start step : ℤ) (count index : ℕ) → length (values_from start step count index) ≡ count
unfolding values_from
length-values_from start step zero index = refl
length-values_from start step (suc count) index =
    omega (arith, length-values_from start step count (index + 1))

-- A value of a parameter of the type. A number of the grid is the start and a multiple of the step, from
-- the start to the end; an int is that number, in the scale of the decimals, and a float is its rounding.
pub data IsGridValue {F : Type 0} (numbers : Numbers F) (entry : GridEntry)
    : ParameterType → ParameterValue F → Type 0 where
  of_bool :
      (b : Bool)
      → entry.start ≡ none
      → entry.end ≡ none
      → entry.step ≡ none
      → IsGridValue numbers entry ParameterType.bool_type (bool_value b)
  of_int :
      (start end step value : ℤ) (k : ℕ)
      → entry.start ≡ some start
      → entry.end ≡ some end
      → entry.step ≡ some step
      → value *ℤ pos numbers.scale ≡ start +ℤ step *ℤ pos k
      → start ≤ℤ value *ℤ pos numbers.scale
      → value *ℤ pos numbers.scale ≤ℤ end
      → IsGridValue numbers entry ParameterType.int_type (int_value value)
  of_float :
      (start end step value : ℤ) (k : ℕ)
      → entry.start ≡ some start
      → entry.end ≡ some end
      → entry.step ≡ some step
      → value ≡ start +ℤ step *ℤ pos k
      → start ≤ℤ value
      → value ≤ℤ end
      → IsGridValue numbers entry ParameterType.float_type (float_value (numbers.round_float value))

-- The type of a parameter that is no bool.
abbrev range_type : Bool → ParameterType
range_type true = ParameterType.int_type
range_type false = ParameterType.float_type

pub no_grid : {A : Type 0} (p : GridProblem) (a : A) → problem p ≡ made a → ⊥
no_grid p a h = ground arith

pub of_made : {A : Type 0} (P : A → Type 0) {a b : A} → made a ≡ made b → P a → P b
of_made P h p = ground (arith, h, p)

true_of_not : (b : Bool) → not b ≡ false → b ≡ true
true_of_not b h = ground arith

-- A check that did not give its problem.
pub passed_check :
    {A : Type 0} (b : Bool) (p : GridProblem) (g : Grid A) (a : A)
    → (if b then problem p else g) ≡ made a
    → (b ≡ false) × (g ≡ made a)
passed_check true p g a h = absurd (no_grid p a h)
passed_check false p g a h = (refl, h)

pub length-map : {A B : Type 0} (f : A → B) (xs : List A) → length (map f xs) ≡ length xs
length-map f [] = refl
length-map f (x ∷ xs) = omega (arith, length-map f xs)

module _ {F : Type 0} (numbers : Numbers F) (entry : GridEntry) where
  -- The values of an entry: not none, and each one of the grid.
  abbrev pub AreGridValues : ParameterType → List (ParameterValue F) → Type 0
  AreGridValues type values = (1 ≤ length values) × All (IsGridValue numbers entry type) values

  module _ (start end step : ℤ) (s : entry.start ≡ some start) (e : entry.end ≡ some end)
      (t : entry.step ≡ some step) (positive : leb_ℤ step (pos 0) ≡ false)
      (order : start ≤ℤ end) where
    -- An int has an integer start and step.
    AreIntegral : Bool → Type 0
    AreIntegral for_int =
        for_int ≡ true
        → (is_integral numbers.scale start ≡ true) × (is_integral numbers.scale step ≡ true)

    value-IsGridValue :
        (for_int : Bool) (k : ℕ)
        → AreIntegral for_int
        → k ≤ magnitude (end -ℤ start) / magnitude step
        → IsGridValue numbers entry
            (range_type for_int)
            (to_value numbers for_int (start +ℤ step *ℤ pos k))
    unfolding AreIntegral
    value-IsGridValue true k integral h =
        let (low, high) = step_in_range start end step k positive order h in
        let value = start +ℤ step *ℤ pos k in
        let (a, b) = integral refl in
        let exact : to_int numbers.scale value *ℤ pos numbers.scale ≡ value =
          to_int_exact numbers.scale value
            (value_integral numbers.scale start step k positive a b) in
        of_int start end step (to_int numbers.scale value) k s e t exact (rw exact low)
          (rw exact high)
    value-IsGridValue false k integral h =
        let (low, high) = step_in_range start end step k positive order h in
        of_float start end step (start +ℤ step *ℤ pos k) k s e t refl low high

    values_from-IsGridValue :
        (for_int : Bool) (count index : ℕ)
        → AreIntegral for_int
        → index + count ≤ magnitude (end -ℤ start) / magnitude step + 1
        → All
            (IsGridValue numbers entry (range_type for_int))
            (map (to_value numbers for_int) (values_from start step count index))
    unfolding values_from
    values_from-IsGridValue for_int zero index integral h = tt
    values_from-IsGridValue for_int (suc count) index integral h = (
      value-IsGridValue for_int index integral (omega (arith, h)),
      values_from-IsGridValue for_int count (index + 1) integral (omega (arith, h)),
    )

    integral-of_check :
        (for_int : Bool)
        → (for_int
            && (not (is_integral numbers.scale start) || not (is_integral numbers.scale step)))
          ≡ false
        → AreIntegral for_int
    unfolding AreIntegral
    integral-of_check true h on =
        let (a, b) = or_false (not (is_integral numbers.scale start)) _ h in
        (true_of_not _ a, true_of_not _ b)
    integral-of_check false h on = absurd (ground arith)

  make_range_values-AreGridValues :
      (for_int : Bool) (start end step : ℤ) (values : List (ParameterValue F))
      → entry.start ≡ some start
      → entry.end ≡ some end
      → entry.step ≡ some step
      → make_range_values numbers entry.name for_int start end step ≡ made values
      → AreGridValues (range_type for_int) values
  unfolding make_range_values
  make_range_values-AreGridValues for_int start end step values s e t h =
      let count = magnitude (end -ℤ start) / magnitude step + 1 in
      let fractions =
        for_int
        && (not (is_integral numbers.scale start) || not (is_integral numbers.scale step)) in
      let grid = made (map (to_value numbers for_int) (values_from start step count 0)) in
      let with_few = if ltb max_sweep_runs count then problem more_runs else grid in
      let with_integers = if fractions then problem (needs_integers entry.name) else with_few in
      let with_order =
        if ltb_ℤ end start then problem (end_before_start entry.name) else with_integers in
      let (positive, h1) =
        passed_check (leb_ℤ step (pos 0)) (step_not_positive entry.name) with_order values h in
      let (order, h2) =
        passed_check (ltb_ℤ end start) (end_before_start entry.name) with_integers values h1 in
      let (integers, h3) = passed_check fractions (needs_integers entry.name) with_few values h2 in
      let (few, h4) = passed_check (ltb max_sweep_runs count) more_runs grid values h3 in
      of_made (AreGridValues (range_type for_int)) h4 (
        rw
            (
              length-map (to_value numbers for_int) (values_from start step count 0),
              length-values_from start step count 0,
            )
            (omega arith),
        values_from-IsGridValue start end step s e t positive (ground arith) for_int count 0
            (integral-of_check start end step s e t positive (ground arith) for_int integers)
            (omega arith),
      )

  with_range-AreGridValues :
      (for_int : Bool) (start end step : Option ℤ) (values : List (ParameterValue F))
      → entry.start ≡ start
      → entry.end ≡ end
      → entry.step ≡ step
      → with_range numbers entry.name for_int start end step ≡ made values
      → AreGridValues (range_type for_int) values
  with_range-AreGridValues for_int (some start) (some end) (some step) values s e t h =
      make_range_values-AreGridValues for_int start end step values s e t h
  with_range-AreGridValues for_int none end step values s e t h = absurd (no_grid _ values h)
  with_range-AreGridValues for_int (some start) none step values s e t h =
      absurd (no_grid _ values h)
  with_range-AreGridValues for_int (some start) (some end) none values s e t h =
      absurd (no_grid _ values h)

  without_range-AreGridValues :
      (start end step : Option ℤ) (values : List (ParameterValue F))
      → entry.start ≡ start
      → entry.end ≡ end
      → entry.step ≡ step
      → without_range numbers entry.name start end step ≡ made values
      → AreGridValues ParameterType.bool_type values
  without_range-AreGridValues none none none values s e t h =
      of_made (AreGridValues ParameterType.bool_type) h
        (omega arith, (of_bool false s e t, (of_bool true s e t, tt)))
  without_range-AreGridValues (some start) end step values s e t h = absurd (no_grid _ values h)
  without_range-AreGridValues none (some end) step values s e t h = absurd (no_grid _ values h)
  without_range-AreGridValues none none (some step) values s e t h = absurd (no_grid _ values h)

  pub make_values-AreGridValues :
      (type : ParameterType) (values : List (ParameterValue F))
      → make_values numbers entry type ≡ made values
      → AreGridValues type values
  unfolding make_values
  make_values-AreGridValues ParameterType.bool_type values h =
      without_range-AreGridValues entry.start entry.end entry.step values refl refl refl h
  make_values-AreGridValues ParameterType.int_type values h =
      with_range-AreGridValues true entry.start entry.end entry.step values refl refl refl h
  make_values-AreGridValues ParameterType.float_type values h =
      with_range-AreGridValues false entry.start entry.end entry.step values refl refl refl h
