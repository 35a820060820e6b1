-- ===== src/Formula/Indicator.antt =====
-- `FormulaIndicator` and the check of an expression
-- (backend/src/atrade/indicator/formula_indicator.py).
use Prim.Native.String.{String}
use atrade.Prelude.{ℕ, List, [], ◌∷◌, Bool, true, false, Option, none, some}
use atrade.Formula.Floats.{Floats}
use atrade.Formula.Measure.{IntegerMath}
use atrade.Formula.Node.{Node, NautilusBar, CatalogClass, look_back, update}
use atrade.Formula.Syntax.{Message, Parsed, ok, problem, key_error, ◌>>=◌}
use atrade.Formula.Parser.{Python, parse_expression}

pub record FormulaIndicator (F I : Type 0) : Type 0 where
  pub expression : String
  pub value : Option F
  pub root : Node F I

module _ (fl : Floats) (im : IntegerMath) (catalog : CatalogClass fl.Float)
    (python : Python fl.Float) where
  open fl use {Float}
  open catalog use {Indicator}

  abbrev pub problem_list : Parsed (Node Float Indicator) → Parsed (List (ℕ × Message))
  problem_list (ok _) = ok []
  problem_list (problem column message) = ok ((column, message) ∷ [])
  problem_list key_error = key_error

  -- An empty list means the expression is correct.
  unfoldable pub check_expression : String → Parsed (List (ℕ × Message))
  check_expression expression = problem_list (parse_expression fl catalog python expression)

  unfoldable pub count_formula_bars : String → Parsed ℕ
  unfolding look_back
  count_formula_bars expression =
      parse_expression fl catalog python expression >>= λ root. ok (look_back root)

  -- `raise ValueError(problems[0].message)`
  abbrev pub raise_first : List (ℕ × Message) → Parsed (Unit {0})
  raise_first [] = ok tt
  raise_first ((column, message) ∷ _) = problem column message

  -- `__init__`
  unfoldable pub create : String → Parsed (FormulaIndicator Float Indicator)
  unfolding check_expression
  create expression = check_expression expression >>= raise_first >>= λ _.
      parse_expression fl catalog python expression >>= λ root.
      ok (record { expression = expression; value = none; root = root })

  unfoldable pub initialized : FormulaIndicator Float Indicator → Bool
  initialized indicator = elim (indicator.value) [ none ↦ false | some _ ↦ true ]

  -- `none` is an IndexError.
  abbrev after_update :
      FormulaIndicator Float Indicator
      → Option (Node Float Indicator × Option Float)
      → Option (FormulaIndicator Float Indicator)
  after_update indicator none = none
  after_update indicator (some (root, value)) =
      some (record indicator { value = value; root = root })

  unfoldable pub handle_bar :
      FormulaIndicator Float Indicator
      → NautilusBar Float
      → Option (FormulaIndicator Float Indicator)
  handle_bar indicator bar = after_update indicator (update fl im catalog bar indicator.root)

  unfoldable pub reset :
      FormulaIndicator Float Indicator → Parsed (FormulaIndicator Float Indicator)
  reset indicator = parse_expression fl catalog python indicator.expression >>= λ root.
      ok (record indicator { value = none; root = root })

  -- The bars of a run, oldest first.
  unfoldable pub handle_bars :
      FormulaIndicator Float Indicator
      → List (NautilusBar Float)
      → Option (FormulaIndicator Float Indicator)
  unfolding handle_bar
  handle_bars indicator [] = some indicator
  handle_bars indicator (bar ∷ bars) = elim (handle_bar indicator bar) [
    | none ↦ none
    | some indicator' ↦ handle_bars indicator' bars
  ]
