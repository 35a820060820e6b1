-- ===== src/Formula/Parser.antt =====
-- The parser of formulas (backend/src/atrade/indicator/formula_indicator.py), from the `ast` tree of
-- an expression to the tree of nodes. `ast.parse` and `str.strip` are Python's, so they are
-- parameters.
use Prim.Native.String.{String}
use Prim.Native.String
use package.text.Mathlib.Text.{◌==◌ as str_eq}
use atrade.Prelude.{ℕ, ◌+◌, ◌*◌, List, [], ◌∷◌, Option, none, some, map, ltb, ◌==◌, if◌then◌else◌}
use atrade.Catalog.{indicator_catalog}
use atrade.Formula.Floats.{Floats}
use atrade.Formula.Measure.{RollingFunction, make_measure}
use atrade.Formula.Node.{
  Node, UnaryFunction, CatalogClass, number_node, scalar_unary, scalar_binary, rolling_node,
  lag_node, look_back, window_bars,
}
use atrade.Formula.Syntax.{
  text, BinaryOperator, pow_operator, UnaryOperator, uadd, usub, other_unary, Expr, Args, Keywords,
  constant, name, bin_op, unary_op, call, attribute, other, no_args, arg, no_keywords, keyword,
  Message, Parsed, ok, problem, ◌>>=◌,
}
use atrade.Formula.Reading.{
  max_depth, max_expression_length, max_look_back_bars, max_calculation_bars, minimum_window,
  rolling_functions, scalar_functions, binary_operators, read_number, read_bar_field, read_exponent,
  read_window,
}
use atrade.Formula.CatalogCall.{parse_catalog_call}

module _ (fl : Floats) (catalog : CatalogClass fl.Float) where
  open fl use {Float}
  open catalog use {Indicator}

  abbrev pub Tree : Type 0
  Tree = Node Float Indicator

  -- `ROLLING_FUNCTIONS[name]()` or `LagNode`, with the child and the size.
  unfoldable pub make_window : Option RollingFunction → Tree → ℕ → Tree
  unfolding make_measure
  make_window none child size = lag_node child size []
  make_window (some f) child size = rolling_node (make_measure f) child size [] 0

  -- `parse_window_call`. An argument comes with the result of `parse_node` on it.
  unfoldable pub parse_window_call :
      ℕ → Option RollingFunction → List (Expr Float × Parsed Tree) → Keywords Float → Parsed Tree
  unfolding read_window make_window
  parse_window_call col f args (keyword _ _ _) = problem (col + 1) Message.no_keyword_arguments
  parse_window_call col f ((_, child) ∷ (size, _) ∷ []) no_keywords = do
    child' ← child
    size' ← read_window fl size (minimum_window f)
    ok (make_window f child' size')
  parse_window_call col f _ no_keywords = problem (col + 1) Message.needs_two_arguments

  unfoldable pub parse_scalar_call :
      ℕ → UnaryFunction Float → List (Expr Float × Parsed Tree) → Keywords Float → Parsed Tree
  parse_scalar_call col f ((_, child) ∷ []) no_keywords =
      child >>= λ child'. ok (scalar_unary f child')
  parse_scalar_call col f _ _ = problem (col + 1) Message.needs_one_argument

  unfoldable pub parse_named_call :
      ℕ → String → List (Expr Float × Parsed Tree) → Keywords Float → Parsed Tree
  unfolding parse_window_call parse_scalar_call parse_catalog_call
  parse_named_call col key args kws = elim (rolling_functions key) [
    | some f ↦ parse_window_call col (some f) args kws
    | none ↦
        if str_eq key "lag"
        then parse_window_call col none args kws
        else elim (scalar_functions key) [
          | some f ↦ parse_scalar_call col f args kws
          | none ↦ elim (indicator_catalog fl key) [
            | some definition ↦
                parse_catalog_call fl catalog col definition (map (λ a. a.0) args) kws
            | none ↦ problem (col + 1) Message.unknown_function
          ]
        ]
  ]

  unfoldable pub parse_call :
      ℕ → Expr Float → List (Expr Float × Parsed Tree) → Keywords Float → Parsed Tree
  unfolding parse_named_call
  parse_call col (attribute c _ _) args kws = problem (c + 1) Message.attribute_access
  parse_call col (name _ id) args kws = parse_named_call col id args kws
  parse_call col _ args kws = problem (col + 1) Message.only_function_name

  -- `parse_binary`, with the results of `parse_node` on both sides.
  unfoldable pub parse_binary :
      ℕ → BinaryOperator → Expr Float → Parsed Tree → Parsed Tree → Parsed Tree
  unfolding read_exponent binary_operators
  parse_binary col pow_operator right left_node right_node = do
    exponent ← read_exponent fl right
    left' ← left_node
    ok (scalar_unary (UnaryFunction.raise_to_exponent exponent) left')
  parse_binary col op right left_node right_node = elim (binary_operators op) [
    | none ↦ problem (col + 1) Message.operator_not_allowed
    | some f ↦ left_node >>= λ left'. right_node >>= λ right'. ok (scalar_binary f left' right')
  ]

  unfoldable pub parse_unary : ℕ → UnaryOperator → Parsed Tree → Parsed Tree
  parse_unary col uadd operand = operand
  parse_unary col usub operand = operand >>= λ child. ok (scalar_unary UnaryFunction.negate child)
  parse_unary col other_unary operand = problem (col + 1) Message.operator_not_allowed

  unfoldable mutual
    unfolding parse_call parse_binary parse_unary read_bar_field read_number

    pub parse_node : Expr Float → ℕ → Parsed Tree
    parse_node (constant col c) depth =
        if ltb max_depth depth
        then problem (col + 1) Message.too_deep
        else read_number fl col c >>= λ x. ok (number_node x)
    parse_node (name col id) depth =
        if ltb max_depth depth then problem (col + 1) Message.too_deep else read_bar_field fl col id
    parse_node (bin_op col left op right) depth =
        let left_node = parse_node left (depth + 1) in
        let right_node = parse_node right (depth + 1) in
        if ltb max_depth depth
        then problem (col + 1) Message.too_deep
        else parse_binary col op right left_node right_node
    parse_node (unary_op col op operand) depth =
        let operand_node = parse_node operand (depth + 1) in
        if ltb max_depth depth
        then problem (col + 1) Message.too_deep
        else parse_unary col op operand_node
    parse_node (call col func args kws) depth =
        let arg_nodes = parse_args args (depth + 1) in
        if ltb max_depth depth
        then problem (col + 1) Message.too_deep
        else parse_call col func arg_nodes kws
    parse_node (attribute col _ _) depth =
        problem (col + 1)
          (if ltb max_depth depth then Message.too_deep else Message.attribute_access)
    parse_node (other col) depth =
        problem (col + 1)
          (if ltb max_depth depth then Message.too_deep else Message.class_not_allowed)

    -- Each argument with the result of `parse_node` on it, of which the calls above use some.
    pub parse_args : Args Float → ℕ → List (Expr Float × Parsed Tree)
    parse_args no_args depth = []
    parse_args (arg e args) depth = (e, parse_node e depth) ∷ parse_args args depth

  -- The limits at the end of `parse_expression`.
  unfoldable pub check_limits : Tree → Parsed Tree
  unfolding look_back window_bars
  check_limits root =
      if ltb max_look_back_bars (look_back root)
      then problem 1 Message.reads_too_many_bars
      else if ltb max_calculation_bars (window_bars root * look_back root)
      then problem 1 Message.too_much_calculation
      else ok root

-- What `ast.parse` does with a text: a tree, a SyntaxError with its offset, or another exception.
pub data Source (F : Type 0) : Type 0 where
  tree : Expr F → Source F
  syntax_error : Option ℕ → Source F
  unreadable : Source F

-- Python's `str.strip` and `ast.parse`.
pub record Python (F : Type 0) : Type 0 where
  pub strip : String → String
  pub ast_parse : String → Source F

-- `error.offset or len(text) + 1`
abbrev error_column : Option ℕ → String → ℕ
error_column none stripped = String.count stripped + 1
error_column (some offset) stripped = if offset == 0 then String.count stripped + 1 else offset

abbrev parsed_source : {F : Type 0} → Source F → String → Parsed (Expr F)
parsed_source (tree e) stripped = ok e
parsed_source (syntax_error offset) stripped =
    problem (error_column offset stripped) Message.syntax_error
parsed_source unreadable stripped = problem 1 Message.not_readable

unfoldable pub read_tree : {F : Type 0} → Python F → String → Parsed (Expr F)
read_tree python expression =
    if str_eq (python.strip expression) ""
    then problem 1 Message.empty_expression
    else if ltb max_expression_length (String.count expression)
    then problem (max_expression_length + 1) Message.too_long
    else parsed_source (python.ast_parse (python.strip expression)) (python.strip expression)

unfoldable pub parse_expression :
    (fl : Floats) (catalog : CatalogClass fl.Float)
    → Python fl.Float
    → String
    → Parsed (Tree fl catalog)
unfolding read_tree parse_node check_limits
parse_expression fl catalog python expression = do
  node ← read_tree python expression
  root ← parse_node fl catalog node 1
  check_limits fl catalog root
