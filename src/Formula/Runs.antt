-- ===== src/Formula/Runs.antt =====
-- A formula indicator from its text to its values.
use Prim.Native.String.{String}
use atrade.Prelude.{zero, suc, ◌≡◌, refl, List, [], ◌∷◌, Option, none, some, ◌∙◌, ap, arith}
use mathlib.Core.Path.{subst}
use native.Mathlib.Numerals.{add-one}
use atrade.Formula.Floats.{Floats, FloatOrder}
use atrade.Formula.Measure.{IntegerMath, RollingFunction, make_measure}
use atrade.Formula.Node.{
  Node, NautilusBar, CatalogClass, number_node, bar_field_node, scalar_unary, scalar_binary,
  rolling_node, lag_node, catalog_node,
}
use atrade.Formula.Meaning.{
  trail, feed, function_of, measure_of, exact_total, exact_squares, unbeaten, History, value,
  state_after, IsFresh,
}
use atrade.Formula.Refinement.{update-state_after}
use atrade.Formula.Syntax.{Parsed, ok, problem, key_error, ◌>>=◌}
use atrade.Formula.Parser.{Python, parse_expression}
use atrade.Formula.Parsing.{Ensures}
use atrade.Formula.Parsing.Trees.{IsWithinLimits, parse_expression-IsWithinLimits}
use atrade.Formula.Indicator.{
  FormulaIndicator, problem_list, raise_first, create, handle_bars, reset,
}

module _ (fl : Floats) (im : IntegerMath) (catalog : CatalogClass fl.Float) where
  open fl use {Float}
  open catalog use {Indicator}

  measure_of-nil : (f : RollingFunction) → measure_of fl im f [] ≡ make_measure f
  unfolding measure_of make_measure exact_total exact_squares unbeaten
  measure_of-nil RollingFunction.mean = refl
  measure_of-nil RollingFunction.max = refl
  measure_of-nil RollingFunction.min = refl
  measure_of-nil RollingFunction.sum = refl
  measure_of-nil RollingFunction.std = refl

  -- A fresh node is in the state after no bar.
  state_after-nil :
      (n : Node Float Indicator) → IsFresh fl im catalog n → state_after fl im catalog n [] ≡ n
  unfolding state_after trail feed
  state_after-nil (number_node x) h = refl
  state_after-nil (bar_field_node f) h = refl
  state_after-nil (scalar_unary f child) h = rw (state_after-nil child h)
  state_after-nil (scalar_binary f l r) h = rw (state_after-nil l h.0, state_after-nil r h.1)
  state_after-nil (rolling_node m child zero vs k) h = absurd (omega arith)
  state_after-nil (rolling_node m child (suc w) vs k) h =
      rw (state_after-nil child h.0, measure_of-nil (function_of m), ← h.2, h.3, h.4)
  state_after-nil (lag_node child bars vs) h = rw (state_after-nil child h.0, add-one, h.1)
  state_after-nil (catalog_node i o bars window) h = refl

-- The bars after a history, in one history: newest first.
abbrev pub history_of : {B : Type 0} → List B → List B → List B
history_of [] h = h
history_of (b ∷ bars) h = history_of bars (b ∷ h)

module _ (fl : Floats) (im : IntegerMath) (order : FloatOrder fl) (catalog : CatalogClass fl.Float)
    (python : Python fl.Float) where
  open fl use {Float}
  open catalog use {Indicator}

  -- An indicator whose root has seen a history, with the value at its end.
  abbrev seen :
      String
      → Option Float
      → Node Float Indicator
      → History Float
      → FormulaIndicator Float Indicator
  seen expression v n h = record {
    expression = expression;
    value = v;
    root = state_after fl im catalog n h;
  }

  handle_bars-seen :
      (expression : String) (v : Option Float) (n : Node Float Indicator) (h : History Float)
      (b : NautilusBar Float) (bars : List (NautilusBar Float))
      → IsFresh fl im catalog n
      → let h' = history_of (b ∷ bars) h in
        handle_bars fl im catalog python (seen expression v n h) (b ∷ bars)
        ≡ some (seen expression (value fl im catalog n h') n h')
  unfolding handle_bars
  handle_bars-seen expression v n h b [] fresh =
      rw (update-state_after fl im order catalog n b h fresh, handle_bars)
  handle_bars-seen expression v n h b (c ∷ bars) fresh =
      rw (update-state_after fl im order catalog n b h fresh, handle_bars)
        (handle_bars-seen expression (value fl im catalog n (b ∷ h)) n (b ∷ h) c bars fresh)

  -- `create` from the result of the parser.
  created_from :
      (expression : String) (r : Parsed (Node Float Indicator))
      {i : FormulaIndicator Float Indicator}
      → (problem_list fl im catalog python r >>= raise_first fl im catalog python >>= λ _.
          r >>= λ root. ok (record { expression = expression; value = none; root = root }))
        ≡ ok i
      → (i.expression ≡ expression) × (i.value ≡ none) × (r ≡ ok i.root)
  created_from expression (ok root) h = ground arith
  created_from expression (problem column message) h = cc
  created_from expression key_error h = cc

  created-root :
      (expression : String) {i : FormulaIndicator Float Indicator}
      → create fl im catalog python expression ≡ ok i
      → (i.expression ≡ expression)
        × (i.value ≡ none)
        × (parse_expression fl catalog python expression ≡ ok i.root)
  unfolding create
  created-root expression {i} h =
      created_from expression (parse_expression fl catalog python expression) h

  parsed-IsWithinLimits :
      (expression : String) {n : Node Float Indicator}
      → parse_expression fl catalog python expression ≡ ok n
      → IsWithinLimits fl im catalog n
  parsed-IsWithinLimits expression h =
      subst (Ensures (IsWithinLimits fl im catalog)) h
        (parse_expression-IsWithinLimits fl im catalog python expression)

  created-IsFresh :
      (expression : String) {i : FormulaIndicator Float Indicator}
      → create fl im catalog python expression ≡ ok i
      → IsFresh fl im catalog i.root
  created-IsFresh expression h =
      (parsed-IsWithinLimits expression (created-root expression h).2).fresh

  created-seen :
      (expression : String) {i : FormulaIndicator Float Indicator}
      → create fl im catalog python expression ≡ ok i
      → i ≡ seen i.expression i.value i.root []
  created-seen expression {i} h =
      rw (state_after-nil fl im catalog i.root (created-IsFresh expression h))

  -- An indicator that `create` made from a text gives, after 1 bar or more, the value that its formula
  -- means for the history of the bars, and no IndexError is raised, if the floats are ordered as
  -- FloatOrder says.
  pub handle_bars-value :
      (expression : String) (i : FormulaIndicator Float Indicator) (b : NautilusBar Float)
      (bars : List (NautilusBar Float))
      → create fl im catalog python expression ≡ ok i
      → (j : FormulaIndicator Float Indicator) × (handle_bars fl im catalog python i (b ∷ bars)
          ≡ some j)
        × (j.expression ≡ expression)
        × (j.value ≡ value fl im catalog i.root (history_of (b ∷ bars) []))
  handle_bars-value expression i b bars h =
      let v = value fl im catalog i.root (history_of (b ∷ bars) []) in
      (
        seen i.expression v i.root (history_of (b ∷ bars) []),
        ap (λ (k : FormulaIndicator Float Indicator). handle_bars fl im catalog python k (b ∷ bars))
              (created-seen expression h)
            ∙ handle_bars-seen i.expression i.value i.root [] b bars (created-IsFresh expression h),
        (created-root expression h).0,
        refl,
      )

  -- `reset` after 1 bar or more gives the indicator that `create` made, if the floats are ordered as
  -- FloatOrder says.
  pub reset-handle_bars :
      (expression : String) (i : FormulaIndicator Float Indicator) (b : NautilusBar Float)
      (bars : List (NautilusBar Float)) {j : FormulaIndicator Float Indicator}
      → create fl im catalog python expression ≡ ok i
      → handle_bars fl im catalog python i (b ∷ bars) ≡ some j
      → reset fl im catalog python j ≡ ok i
  unfolding reset
  reset-handle_bars expression i b bars {j} h k =
      let (j', run, same, _) = handle_bars-value expression i b bars h in
      let (text, empty, parsed) = created-root expression h in
      let here : j.expression ≡ expression = cc in rw (here, parsed) cc
