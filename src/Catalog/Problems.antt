-- ===== src/Catalog/Problems.antt =====
-- The check of the parameters and the output of an indicator
-- (backend/src/atrade/indicator/indicator_problems.py). A message is its kind with the name that it
-- is about; the location of a problem follows from the two.
use Prim.Native.String.{String}
use atrade.Prelude.{
  Bool, true, false, not, ◌&&◌, List, [], ◌∷◌, Option, none, some, if◌then◌else◌, ◌>>=◌,
}
use atrade.Formula.Floats.{Floats, Number, int, float, infinite}
use atrade.Catalog.{
  IndicatorParameter, IndicatorDefinition, ParameterOrder, ValueType, int_type, float_type, Dict,
  lookup, elem, with_defaults,
}

pub data IndicatorProblem : Type 0 where
  parameters_not_object : IndicatorProblem
  unknown_parameter : Option String → IndicatorProblem
  must_be_integer must_be_number out_of_range : (parameter : String) → IndicatorProblem
  must_be_less : (smaller larger : String) → IndicatorProblem
  needs_output : IndicatorProblem
  unknown_output : IndicatorProblem

-- A value of a stored reference: JSON, or the numbers of a formula.
pub data JsonValue (F : Type 0) : Type 0 where
  number : Number F → JsonValue F
  boolean : JsonValue F
  other_value : JsonValue F

-- What `check_parameters` gets. A key that is not a text is `none`.
pub data Parameters (F : Type 0) : Type 0 where
  not_mapping : Parameters F
  mapping : List (Option String × JsonValue F) → Parameters F

-- An output that is given: a text, or something else.
pub data Output : Type 0 where
  no_output : Output
  output_name : String → Output
  other_output : Output

unfoldable pub find_parameter :
    {F : Type 0} → Option String → List (IndicatorParameter F) → Option (IndicatorParameter F)
find_parameter none ps = none
find_parameter (some name) [] = none
find_parameter (some name) (p ∷ ps) =
    if elem name (p.name ∷ []) then some p else find_parameter (some name) ps

-- The values as numbers: after the checks of `check_parameters` each of them is one.
unfoldable pub cast_values : {F : Type 0} → List (Option String × JsonValue F) → Dict (Number F)
cast_values [] = []
cast_values ((some name, number v) ∷ values) = (name, v) ∷ cast_values values
cast_values ((some name, boolean) ∷ values) = cast_values values
cast_values ((some name, other_value) ∷ values) = cast_values values
cast_values ((none, _) ∷ values) = cast_values values

module _ (fl : Floats) where
  open fl use {Float, number_le}

  abbrev is_int : Number Float → Bool
  is_int (int _) = true
  is_int (float _) = false
  is_int infinite = false

  abbrev is_int_type : ValueType → Bool
  is_int_type int_type = true
  is_int_type float_type = false

  unfoldable pub check_parameter_value :
      IndicatorParameter Float → JsonValue Float → Option IndicatorProblem
  check_parameter_value parameter (number value) =
      if is_int_type parameter.value_type && not (is_int value)
      then some (must_be_integer parameter.name)
      else if number_le parameter.minimum value && number_le value parameter.maximum
      then none
      else some (out_of_range parameter.name)
  check_parameter_value parameter _ =
      if is_int_type parameter.value_type
      then some (must_be_integer parameter.name)
      else some (must_be_number parameter.name)

  -- One round of the loop of `check_parameters`.
  unfoldable pub check_entry :
      IndicatorDefinition Float → Option String → JsonValue Float → Option IndicatorProblem
  unfolding check_parameter_value find_parameter
  check_entry definition name value = elim (find_parameter name definition.parameters) [
    | none ↦ some (unknown_parameter name)
    | some parameter ↦ check_parameter_value parameter value
  ]

  unfoldable pub check_entries :
      IndicatorDefinition Float → List (Option String × JsonValue Float) → List IndicatorProblem
  unfolding check_entry
  check_entries definition [] = []
  check_entries definition ((name, value) ∷ values) = elim (check_entry definition name value) [
    | none ↦ check_entries definition values
    | some problem ↦ problem ∷ check_entries definition values
  ]

  -- `none` is a KeyError of `values[…]`.
  unfoldable pub check_order_list :
      List ParameterOrder → Dict (Number Float) → Option (List IndicatorProblem)
  check_order_list [] values = some []
  check_order_list (order ∷ orders) values = do
    smaller ← lookup order.smaller values
    larger ← lookup order.larger values
    rest ← check_order_list orders values
    some (if number_le larger smaller then must_be_less order.smaller order.larger ∷ rest else rest)

  unfoldable pub check_orders :
      IndicatorDefinition Float → Dict (Number Float) → Option (List IndicatorProblem)
  unfolding check_order_list with_defaults
  check_orders definition parameters =
      check_order_list definition.orders (with_defaults definition.parameters parameters)

  unfoldable pub check_parameters :
      IndicatorDefinition Float → Parameters Float → Option (List IndicatorProblem)
  unfolding check_orders check_entries cast_values
  check_parameters definition not_mapping = some (parameters_not_object ∷ [])
  check_parameters definition (mapping values) = elim (check_entries definition values) [
    | [] ↦ check_orders definition (cast_values values)
    | problem ∷ problems ↦ some (problem ∷ problems)
  ]

  unfoldable pub check_output : IndicatorDefinition Float → Output → List IndicatorProblem
  check_output definition no_output = elim definition.outputs [
    | [] ↦ needs_output ∷ []
    | _ ∷ more ↦ elim more [ [] ↦ [] | _ ∷ _ ↦ needs_output ∷ [] ]
  ]
  check_output definition (output_name name) =
      if elem name definition.outputs then [] else unknown_output ∷ []
  check_output definition other_output = unknown_output ∷ []
