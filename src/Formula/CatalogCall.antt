-- ===== src/Formula/CatalogCall.antt =====
-- The call of a catalog indicator in a formula
-- (backend/src/atrade/indicator/formula_indicator.py).
use Prim.Native.String.{String}
use package.text.Mathlib.Text.{◌==◌ as str_eq}
use atrade.Prelude.{ℕ, ◌+◌, List, [], ◌∷◌, ◌++◌, Option, none, some, ltb, if◌then◌else◌, length}
use atrade.Catalog.{
  IndicatorParameter, IndicatorDefinition, Dict, lookup, with_defaults, screen_look_back_bars,
}
use atrade.Catalog.Problems.{
  IndicatorProblem, Output, no_output, output_name, mapping, JsonValue, check_parameters,
  check_output,
}
use atrade.Formula.Floats.{Floats, Number}
use atrade.Formula.Node.{Node, CatalogClass, catalog_node}
use atrade.Formula.Syntax.{
  text, number, Expr, Keywords, constant, no_keywords, keyword, Message, Parsed, ok, problem, ◌>>=◌,
  or_key_error, refuse,
}

module _ (fl : Floats) where
  open fl use {Float}

  unfoldable pub read_output_name : Expr Float → Parsed String
  read_output_name (constant col (text t)) = ok t
  read_output_name node = refuse node Message.output_not_text

  unfoldable pub read_parameter : Expr Float → Parsed (Number Float)
  read_parameter (constant col (number n)) = ok n
  read_parameter node = refuse node Message.parameter_not_number

  -- The dict of the positional arguments: `dict(zip(names, node.args))`.
  unfoldable pub zip_names : List (IndicatorParameter Float) → List (Expr Float) → Dict (Expr Float)
  zip_names [] args = []
  zip_names (p ∷ ps) [] = []
  zip_names (p ∷ ps) (e ∷ args) = (p.name, e) ∷ zip_names ps args

  -- The loop over `node.keywords`. The dict keeps its order of insertion.
  unfoldable pub read_keywords :
      ℕ → Keywords Float → Dict (Expr Float) → Output → Parsed (Dict (Expr Float) × Output)
  unfolding read_output_name
  read_keywords col no_keywords written wanted = ok (written, wanted)
  read_keywords col (keyword none value rest) written wanted = problem (col + 1) Message.double_star
  read_keywords col (keyword (some key) value rest) written wanted =
      if str_eq key "output"
      then (read_output_name value >>= λ t. read_keywords col rest written (output_name t))
      else elim (lookup key written) [
        | some _ ↦ refuse value Message.given_twice
        | none ↦ read_keywords col rest (written ++ (key, value) ∷ []) wanted
      ]

  -- `{name: read_parameter(name, value) for …}`
  unfoldable pub read_parameters : Dict (Expr Float) → Parsed (Dict (Number Float))
  unfolding read_parameter
  read_parameters [] = ok []
  read_parameters ((key, e) ∷ written) =
      read_parameter e >>= λ n. read_parameters written >>= λ rest. ok ((key, n) ∷ rest)

  abbrev pub as_mapping : Dict (Number Float) → List (Option String × JsonValue Float)
  as_mapping [] = []
  as_mapping ((key, n) ∷ rest) = (some key, JsonValue.number n) ∷ as_mapping rest

  -- `output or "value"`: an empty text counts as none.
  abbrev pub output_or_value : Output → String
  output_or_value (output_name t) = if str_eq t "" then "value" else t
  output_or_value _ = "value"

  abbrev pub first_problem : ℕ → List IndicatorProblem → Parsed (Unit {0})
  first_problem column [] = ok tt
  first_problem column (p ∷ _) = problem column (Message.indicator_problem p)

  -- The window of an average that keeps one number for each bar is 0.
  abbrev pub catalog_window : IndicatorDefinition Float → ℕ → ℕ
  catalog_window definition bars = if ltb 1 definition.look_back.factor then 0 else bars

module _ (fl : Floats) (catalog : CatalogClass fl.Float) where
  open fl use {Float}
  open catalog use {Indicator, construct}

  abbrev pub Tree : Type 0
  Tree = Node Float Indicator

  -- The last lines of `parse_catalog_call`.
  abbrev pub build_node : IndicatorDefinition Float → Dict (Number Float) → Output → ℕ → Tree
  build_node definition values wanted bars =
      catalog_node (construct definition.indicator_class values) (output_or_value fl wanted) bars
        (catalog_window fl definition bars)

  unfoldable pub read_look_back :
      IndicatorDefinition Float → Dict (Number Float) → Output → Parsed Tree
  unfolding screen_look_back_bars
  read_look_back definition values wanted =
      or_key_error (screen_look_back_bars fl definition values) >>= λ bars.
      ok (build_node definition values wanted bars)

  -- `if problems: raise refuse(node, problems[0].message)`, and what follows.
  unfoldable pub refuse_problems :
      ℕ
      → IndicatorDefinition Float
      → Dict (Number Float)
      → Output
      → List IndicatorProblem
      → Parsed Tree
  unfolding read_look_back check_output with_defaults
  refuse_problems col definition parameters wanted problems =
      first_problem fl (col + 1) (problems ++ check_output fl definition wanted) >>= λ _.
      read_look_back definition (with_defaults definition.parameters parameters) wanted

  unfoldable pub check_call :
      ℕ → IndicatorDefinition Float → Output → Dict (Number Float) → Parsed Tree
  unfolding refuse_problems check_parameters
  check_call col definition wanted parameters =
      or_key_error (check_parameters fl definition (mapping (as_mapping fl parameters)))
      >>= refuse_problems col definition parameters wanted

  unfoldable pub parse_catalog_call :
      ℕ → IndicatorDefinition Float → List (Expr Float) → Keywords Float → Parsed Tree
  unfolding zip_names read_keywords read_parameters check_call
  parse_catalog_call col definition args kws =
      if ltb (length definition.parameters) (length args)
      then problem (col + 1) Message.too_many_arguments
      else (read_keywords fl col kws (zip_names fl definition.parameters args) no_output >>= λ x.
          read_parameters fl x.0 >>= check_call col definition x.1)
