-- ===== src/Backtests/Grid.antt =====
-- The grid of a parameter sweep (backend/src/atrade/backtest/parameter_sweep.py). A `Decimal` is its
-- number of smallest units, `scale` for 1; the floats and the conversion to a float of 10 decimal
-- places are a parameter. The sums and quotients are exact: of numbers in the precision of `Decimal`.
use Prim.Native.String.{String}
use package.text.Mathlib.Text.{◌==◌ as str_eq}
use atrade.Prelude.{
  ℕ, zero, suc, ◌+◌, ◌*◌, ◌/◌, ◌%◌, ◌==◌, ltb, Bool, true, false, not, ◌&&◌, ◌||◌, List, [], ◌∷◌,
  ◌++◌, map, any, length, Option, none, some, if◌then◌else◌,
}
use atrade.Prelude.Int.{ℤ, pos, negsuc, magnitude, ◌+ℤ◌, ◌-ℤ◌, ◌*ℤ◌, ltb_ℤ, leb_ℤ}

abbrev pub max_sweep_parameters : ℕ
max_sweep_parameters = 3

abbrev pub max_sweep_runs : ℕ
max_sweep_runs = 200

pub data ParameterType : Type 0 where
  int_type float_type bool_type : ParameterType

-- `StrategyParameter` of backend/src/atrade/strategy/strategy_parameters.py, without its default.
pub record StrategyParameter : Type 0 where
  pub name : String
  pub type : ParameterType

pub record GridEntry : Type 0 where
  pub name : String
  pub start : Option ℤ
  pub end : Option ℤ
  pub step : Option ℤ

pub data ParameterValue (F : Type 0) : Type 0 where
  int_value : ℤ → ParameterValue F
  float_value : F → ParameterValue F
  bool_value : Bool → ParameterValue F

-- `dict[str, int | float | bool]`
abbrev pub ParameterValues : Type 0 → Type 0
ParameterValues F = List (String × ParameterValue F)

pub data GridProblem : Type 0 where
  takes_no_range : (name : String) → GridProblem
  needs_range : (name : String) → GridProblem
  step_not_positive : (name : String) → GridProblem
  end_before_start : (name : String) → GridProblem
  needs_integers : (name : String) → GridProblem
  more_runs : GridProblem
  needs_parameters : GridProblem
  named_twice : GridProblem
  not_a_parameter : (name : String) → GridProblem
  too_many_runs : (run_count : ℕ) → GridProblem

pub data Grid (A : Type 0) : Type 0 where
  problem : GridProblem → Grid A
  made : A → Grid A

-- `round_float` is `round(float(value), FLOAT_GRID_DECIMALS)`.
pub record Numbers (F : Type 0) : Type 0 where
  pub scale : ℕ
  pub round_float : ℤ → F

-- The part of a number before its decimal point.
abbrev pub to_int : ℕ → ℤ → ℤ
to_int scale (pos n) = pos (n / scale)
to_int scale (negsuc n) = pos 0 -ℤ pos (suc n / scale)

abbrev pub is_integral : ℕ → ℤ → Bool
is_integral scale value = magnitude value % scale == 0

-- `[start + step * index for index in range(count)]`, from an index on.
unfoldable pub values_from : ℤ → ℤ → ℕ → ℕ → List ℤ
values_from start step zero index = []
values_from start step (suc count) index =
    (start +ℤ step *ℤ pos index) ∷ values_from start step count (index + 1)

-- `by_name.get(name)`: of parameters with 1 name, the last one.
unfoldable pub get_parameter : String → List StrategyParameter → Option StrategyParameter
get_parameter name [] = none
get_parameter name (p ∷ parameters) = elim (get_parameter name parameters) [
  | some q ↦ some q
  | none ↦ if str_eq p.name name then some p else none
]

-- `len(set(names)) != len(names)`
unfoldable pub has_duplicate : List GridEntry → Bool
has_duplicate [] = false
has_duplicate (entry ∷ entries) =
    any (λ (other : GridEntry). str_eq other.name entry.name) entries || has_duplicate entries

-- The first problem ends the loop.
abbrev pub and_values : {A : Type 0} → Grid A → Grid (List A) → Grid (List A)
and_values (problem p) rest = problem p
and_values (made values) (problem p) = problem p
and_values (made values) (made rest) = made (values ∷ rest)

module _ {F : Type 0} where
  unfoldable pub count_runs : List (List (ParameterValue F)) → ℕ
  count_runs [] = 1
  count_runs (values ∷ rest) = length values * count_runs rest

  -- `itertools.product`, with the names of the entries: the last parameter changes first.
  unfoldable pub extend_all :
      String → List (ParameterValue F) → List (ParameterValues F) → List (ParameterValues F)
  extend_all name [] combinations = []
  extend_all name (value ∷ values) combinations =
      map (λ c. (name, value) ∷ c) combinations ++ extend_all name values combinations

  unfoldable pub combine :
      List GridEntry → List (List (ParameterValue F)) → List (ParameterValues F)
  unfolding extend_all
  combine [] values = [] ∷ []
  combine (entry ∷ entries) [] = []
  combine (entry ∷ entries) (values ∷ rest) = extend_all entry.name values (combine entries rest)

  -- After the loop.
  abbrev pub limit_runs :
      List GridEntry → Grid (List (List (ParameterValue F))) → Grid (List (ParameterValues F))
  limit_runs entries (problem p) = problem p
  limit_runs entries (made values) =
      if ltb max_sweep_runs (count_runs values)
      then problem (too_many_runs (count_runs values))
      else made (combine entries values)

module _ {F : Type 0} (numbers : Numbers F) where
  -- The value of a parameter that is no bool.
  abbrev pub to_value : Bool → ℤ → ParameterValue F
  to_value true value = int_value (to_int numbers.scale value)
  to_value false value = float_value (numbers.round_float value)

  -- An `int` or a `float` parameter, with the 3 numbers of its entry.
  unfoldable pub make_range_values : String → Bool → ℤ → ℤ → ℤ → Grid (List (ParameterValue F))
  unfolding values_from
  make_range_values name for_int start end step =
      let count = magnitude (end -ℤ start) / magnitude step + 1 in
      if leb_ℤ step (pos 0)
      then problem (step_not_positive name)
      else if ltb_ℤ end start
      then problem (end_before_start name)
      else if for_int
          && (not (is_integral numbers.scale start) || not (is_integral numbers.scale step))
      then problem (needs_integers name)
      else if ltb max_sweep_runs count
      then problem more_runs
      else made (map (to_value for_int) (values_from start step count 0))

  abbrev pub with_range :
      String → Bool → Option ℤ → Option ℤ → Option ℤ → Grid (List (ParameterValue F))
  with_range name for_int (some start) (some end) (some step) =
      make_range_values name for_int start end step
  with_range name for_int none end step = problem (needs_range name)
  with_range name for_int (some start) none step = problem (needs_range name)
  with_range name for_int (some start) (some end) none = problem (needs_range name)

  abbrev pub without_range :
      String → Option ℤ → Option ℤ → Option ℤ → Grid (List (ParameterValue F))
  without_range name none none none = made (bool_value false ∷ bool_value true ∷ [])
  without_range name (some start) end step = problem (takes_no_range name)
  without_range name none (some end) step = problem (takes_no_range name)
  without_range name none none (some step) = problem (takes_no_range name)

  unfoldable pub make_values : GridEntry → ParameterType → Grid (List (ParameterValue F))
  unfolding make_range_values
  make_values entry ParameterType.bool_type =
      without_range entry.name entry.start entry.end entry.step
  make_values entry ParameterType.int_type =
      with_range entry.name true entry.start entry.end entry.step
  make_values entry ParameterType.float_type =
      with_range entry.name false entry.start entry.end entry.step

  abbrev pub values_of : GridEntry → Option StrategyParameter → Grid (List (ParameterValue F))
  values_of entry none = problem (not_a_parameter entry.name)
  values_of entry (some parameter) = make_values entry parameter.type

  -- The loop of `make_grid`.
  unfoldable pub values_by_name :
      List GridEntry → List StrategyParameter → Grid (List (List (ParameterValue F)))
  unfolding make_values get_parameter
  values_by_name [] parameters = made []
  values_by_name (entry ∷ entries) parameters =
      and_values (values_of entry (get_parameter entry.name parameters))
        (values_by_name entries parameters)

  unfoldable pub make_grid :
      List GridEntry → List StrategyParameter → Grid (List (ParameterValues F))
  unfolding values_by_name has_duplicate count_runs combine
  make_grid entries parameters =
      if length entries == 0 || ltb max_sweep_parameters (length entries)
      then problem needs_parameters
      else if has_duplicate entries
      then problem named_twice
      else limit_runs entries (values_by_name entries parameters)
