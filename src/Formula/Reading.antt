-- ===== src/Formula/Reading.antt =====
-- What the parser of formulas reads from single nodes of the `ast` tree: numbers, names, windows and
-- exponents (backend/src/atrade/indicator/formula_indicator.py).
use Prim.Native.String.{String}
use package.text.Mathlib.Text.{◌==◌ as str_eq}
use atrade.Prelude.{ℕ, ◌+◌, Bool, true, false, ◌&&◌, Option, none, some, leb, if◌then◌else◌}
use atrade.Prelude.Int.{pos, negsuc}
use atrade.Catalog.{maximum_period}
use atrade.Formula.Floats.{Floats, Number, int}
use atrade.Formula.Measure.{RollingFunction, mean, max, min, sum, std}
use atrade.Formula.Node.{Node, BarField, UnaryFunction, BinaryFunction, bar_field_node}
use atrade.Formula.Syntax.{
  Constant, text, number, other_constant, BinaryOperator, add_operator, sub_operator, mult_operator,
  div_operator, pow_operator, other_binary, usub, Expr, constant, unary_op, Message, Parsed, ok,
  problem, refuse,
}

abbrev pub max_expression_length : ℕ
max_expression_length = 500

abbrev pub max_depth : ℕ
max_depth = 20

abbrev pub max_exponent : ℕ
max_exponent = 10

abbrev pub max_look_back_bars : ℕ
max_look_back_bars = 20000

abbrev pub max_calculation_bars : ℕ
max_calculation_bars = 10000000

abbrev pub min_std_window : ℕ
min_std_window = 2

-- `ROLLING_FUNCTIONS.get`
unfoldable pub rolling_functions : String → Option RollingFunction
rolling_functions key =
    if str_eq key "mean"
    then some mean
    else if str_eq key "max"
    then some max
    else if str_eq key "min"
    then some min
    else if str_eq key "sum"
    then some sum
    else if str_eq key "std"
    then some std
    else none

-- `SCALAR_FUNCTIONS.get`
unfoldable pub scalar_functions : {F : Type 0} → String → Option (UnaryFunction F)
scalar_functions key =
    if str_eq key "abs"
    then some UnaryFunction.find_absolute
    else if str_eq key "log"
    then some UnaryFunction.find_log
    else none

-- `BAR_FIELDS`
unfoldable pub bar_fields : String → Option BarField
bar_fields key =
    if str_eq key "open"
    then some BarField.open_field
    else if str_eq key "high"
    then some BarField.high
    else if str_eq key "low"
    then some BarField.low
    else if str_eq key "close"
    then some BarField.close
    else if str_eq key "volume"
    then some BarField.volume
    else none

-- `BINARY_OPERATORS.get`
unfoldable pub binary_operators : BinaryOperator → Option BinaryFunction
binary_operators add_operator = some BinaryFunction.add
binary_operators sub_operator = some BinaryFunction.subtract
binary_operators mult_operator = some BinaryFunction.multiply
binary_operators div_operator = some BinaryFunction.divide
binary_operators pow_operator = none
binary_operators other_binary = none

-- The least window of `parse_window_call`.
abbrev pub minimum_window : Option RollingFunction → ℕ
minimum_window none = 1
minimum_window (some std) = min_std_window
minimum_window (some mean) = 1
minimum_window (some max) = 1
minimum_window (some min) = 1
minimum_window (some sum) = 1

module _ (fl : Floats) where
  open fl use {Float, to_float, magnitude_at_most, number_negate}

  -- `float(…)` and `math.isfinite`
  abbrev finite_number : ℕ → Option Float → Parsed Float
  finite_number column none = problem column Message.not_finite
  finite_number column (some x) = ok x

  unfoldable pub read_number : ℕ → Constant Float → Parsed Float
  read_number col (text _) = problem (col + 1) Message.text_not_allowed
  read_number col other_constant = problem (col + 1) Message.only_numbers
  read_number col (number n) = finite_number (col + 1) (to_float n)

  unfoldable pub read_bar_field : {I : Type 0} → ℕ → String → Parsed (Node Float I)
  unfolding bar_fields
  read_bar_field col id = elim (bar_fields id) [
    | none ↦ problem (col + 1) Message.unknown_name
    | some field ↦ ok (bar_field_node field)
  ]

  -- The constant of an exponent that has no sign.
  unfoldable pub read_exponent_constant : ℕ → Bool → Constant Float → Parsed (Number Float)
  read_exponent_constant col is_negative (number n) =
      if magnitude_at_most n max_exponent
      then ok (if is_negative then number_negate n else n)
      else problem (col + 1) Message.exponent_range
  read_exponent_constant col is_negative _ = problem (col + 1) Message.exponent_range

  -- `**` takes a fixed exponent. The column is that of the whole exponent.
  unfoldable pub read_exponent : Expr Float → Parsed (Number Float)
  unfolding read_exponent_constant
  read_exponent (constant col c) = read_exponent_constant col false c
  read_exponent (unary_op col usub (constant _ c)) = read_exponent_constant col true c
  read_exponent node = refuse node Message.exponent_range

  unfoldable pub read_window : Expr Float → ℕ → Parsed ℕ
  read_window (constant col (number (int (pos n)))) minimum =
      if leb minimum n && leb n maximum_period then ok n else problem (col + 1) Message.window_range
  read_window (constant col (number (int (negsuc n)))) minimum =
      problem (col + 1) Message.window_range
  read_window node minimum = refuse node Message.window_not_integer
