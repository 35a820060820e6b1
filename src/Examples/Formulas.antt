-- ===== src/Examples/Formulas.antt =====
-- Runs of the formula `max(close, 2) - lag(sma(3), 1)`.
use atrade.Prelude.{◌≤◌, ◌≡◌, refl, List, [], ◌∷◌, ◌++◌, Option, none, some, arith, length}
use atrade.Prelude.Int.{ℤ, pos, ◌-ℤ◌}
use atrade.Catalog.{indicator_catalog}
use atrade.Formula.Measure.{
  Extreme, make_measure, window_extreme, measure_add, measure_remove, measure_read,
}
use atrade.Formula.Node.{
  Node, NautilusBar, BarField, BinaryFunction, bar_field_node, scalar_binary, rolling_node,
  lag_node, catalog_node, look_back, update,
}
use atrade.Formula.Meaning.{History, feed, value, IsFresh}
use atrade.Formula.LookBack.{HasLocalIndicators, value-look_back}
use atrade.Formula.Syntax.{ok}
use atrade.Formula.Reading.{rolling_functions, scalar_functions}
use atrade.Formula.Parser.{parse_expression}
use atrade.Formula.Parsing.{Ensures}
use atrade.Formula.Parsing.Trees.{IsWithinLimits, parse_expression-IsWithinLimits}
use atrade.Formula.Indicator.{FormulaIndicator, count_formula_bars, create, handle_bars, reset}
use atrade.Formula.Runs.{history_of, handle_bars-value, reset-handle_bars}
use atrade.Examples.Numbers.{whole_floats, whole_order, whole_math, day_close, python, bar_at}

abbrev Tree : Type 0
Tree = Node ℤ (Option ℤ)

abbrev spread : Tree
spread =
    scalar_binary BinaryFunction.subtract
      (rolling_node (window_extreme Extreme.maximum []) (bar_field_node BarField.close) 2 [] 0)
      (lag_node (catalog_node none "value" 3 3) 1 [])

abbrev indicator : FormulaIndicator ℤ (Option ℤ)
indicator = record { expression = "spread"; value = none; root = spread }

created : create whole_floats whole_math day_close python "spread" ≡ ok indicator
unfolding create parse_expression rolling_functions scalar_functions indicator_catalog
created = refl

bars_of_spread : count_formula_bars whole_floats whole_math day_close python "spread" ≡ ok 4
unfolding count_formula_bars parse_expression rolling_functions scalar_functions indicator_catalog
bars_of_spread = refl

-- The values 3, 5, 2 and 4: the maximum of the last two less the close before the last.
abbrev bars : List (NautilusBar ℤ)
bars = bar_at 5 ∷ bar_at 2 ∷ bar_at 4 ∷ []

abbrev after_bars : FormulaIndicator ℤ (Option ℤ)
after_bars = record {
  expression = "spread";
  value = some (pos 2);
  root =
      scalar_binary BinaryFunction.subtract
        (rolling_node (window_extreme Extreme.maximum (pos 4 ∷ [])) (bar_field_node BarField.close)
          2 (some (pos 2) ∷ some (pos 4) ∷ []) 2)
        (lag_node (catalog_node (some (pos 4)) "value" 3 3) 1 (some (pos 2) ∷ some (pos 4) ∷ []));
}

run_of_bars :
    handle_bars whole_floats whole_math day_close python indicator (bar_at 3 ∷ bars)
    ≡ some after_bars
unfolding handle_bars update measure_read measure_add measure_remove ◌-ℤ◌
run_of_bars = refl

handle_bars-value_example :
    (j : FormulaIndicator ℤ (Option ℤ)) × (handle_bars whole_floats whole_math day_close python
        indicator
        (bar_at 3 ∷ bars)
      ≡ some j)
    × (j.expression ≡ "spread")
    × (j.value ≡ value whole_floats whole_math day_close spread (history_of (bar_at 3 ∷ bars) []))
handle_bars-value_example =
    handle_bars-value whole_floats whole_math whole_order day_close python "spread" indicator
      (bar_at 3) bars created

reset-handle_bars_example : reset whole_floats whole_math day_close python after_bars ≡ ok indicator
reset-handle_bars_example =
    reset-handle_bars whole_floats whole_math whole_order day_close python "spread" indicator
      (bar_at 3) bars created run_of_bars

parse_expression-IsWithinLimits_example :
    Ensures
      (IsWithinLimits whole_floats whole_math day_close)
      (parse_expression whole_floats day_close python "spread")
parse_expression-IsWithinLimits_example =
    parse_expression-IsWithinLimits whole_floats whole_math day_close python "spread"

spread-IsFresh : IsFresh whole_floats whole_math day_close spread
unfolding make_measure
spread-IsFresh = ((tt, omega arith, refl, refl, refl), (tt, refl))

-- The last close does not read a bar before the last one.
last_close_local :
    (recent older older' : History ℤ)
    → 3 ≤ length recent
    → feed whole_floats whole_math day_close none (recent ++ older)
      ≡ feed whole_floats whole_math day_close none (recent ++ older')
unfolding feed
last_close_local [] older older' p = absurd (omega arith)
last_close_local (b ∷ recent) older older' p = refl

spread-HasLocalIndicators : HasLocalIndicators whole_floats whole_math day_close spread
spread-HasLocalIndicators = (tt, (omega arith, last_close_local))

abbrev recent : History ℤ
recent = bar_at 4 ∷ bar_at 2 ∷ bar_at 5 ∷ bar_at 3 ∷ []

enough_recent : look_back spread ≤ 4
unfolding look_back
enough_recent = omega arith

value-look_back_example :
    value whole_floats whole_math day_close spread (recent ++ [])
    ≡ value whole_floats whole_math day_close spread (recent ++ bar_at 9 ∷ [])
value-look_back_example =
    value-look_back whole_floats whole_math day_close spread recent [] (bar_at 9 ∷ [])
      spread-IsFresh spread-HasLocalIndicators enough_recent
