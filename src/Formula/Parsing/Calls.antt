-- ===== src/Formula/Parsing/Calls.antt =====
-- What holds of the trees that the parser gives for a call.
use Prim.Native.String.{String}
use atrade.Prelude.{
  ℕ, ◌+◌, ◌≤◌, List, [], ◌∷◌, length, Option, none, some, All, arith, ltb, Bool-cases, Option-cases,
  map, ◌++◌, inl, inr,
}
use package.text.Mathlib.Text.{◌==◌ as str_eq}
use atrade.Catalog.{
  IndicatorDefinition, Dict, with_defaults, screen_look_back_bars, indicator_catalog,
}
use atrade.Catalog.Problems.{
  IndicatorProblem, Output, no_output, mapping, check_parameters, check_output,
}
use atrade.Formula.Floats.{Floats, Number}
use atrade.Formula.Measure.{RollingFunction, IntegerMath}
use atrade.Formula.Node.{Node, UnaryFunction, CatalogClass, scalar_unary}
use atrade.Formula.Syntax.{
  Expr, Keywords, Parsed, ok, problem, key_error, ◌>>=◌, or_key_error, name, attribute,
}
use atrade.Formula.Reading.{
  max_depth, minimum_window, read_window, rolling_functions, scalar_functions,
}
use atrade.Formula.CatalogCall.{
  parse_catalog_call, build_node, read_look_back, refuse_problems, check_call, first_problem,
  as_mapping, zip_names, read_keywords, read_parameters,
}
use atrade.Formula.Parser.{parse_window_call, parse_scalar_call, parse_named_call, parse_call}
use atrade.Formula.Parsing.{
  Ensures-bind, Ensures-skip, IsParsed, Good, Good-make_window, read_window-range,
}

module _ (fl : Floats) (im : IntegerMath) (catalog : CatalogClass fl.Float) where
  open fl use {Float}
  open catalog use {Indicator}

  -- The results of the arguments of a call are good one level down.
  abbrev pub GoodArgs : ℕ → List (Expr Float × Parsed (Node Float Indicator)) → Type 0
  GoodArgs depth args = All (λ a. Good fl im catalog depth a.1) args

  Good-window_call :
      (d col : ℕ) (f : Option RollingFunction) (kws : Keywords Float)
      (args : List (Expr Float × Parsed (Node Float Indicator)))
      → GoodArgs (d + 1) args
      → Good fl im catalog d (parse_window_call fl catalog col f args kws)
  unfolding parse_window_call
  Good-window_call d col f (Keywords.keyword _ _ _) args good = tt
  Good-window_call d col f Keywords.no_keywords ((e, child) ∷ (size, p) ∷ []) good =
      Ensures-bind (IsParsed fl im catalog (d + 1)) (IsParsed fl im catalog d) child _ good.0 λ n h.
        Ensures-bind _ (IsParsed fl im catalog d) (read_window fl size (minimum_window f)) _
          (read_window-range fl size (minimum_window f))
          λ w r. Good-make_window fl im catalog d w f n h r.0 r.1
  Good-window_call d col f Keywords.no_keywords _ good = tt

  pub Good-scalar_unary :
      (d : ℕ) (f : UnaryFunction Float) (r : Parsed (Node Float Indicator))
      → Good fl im catalog (d + 1) r
      → Good fl im catalog d (r >>= λ child. ok (scalar_unary f child))
  Good-scalar_unary d f (ok n) h = record {
    fresh = h.fresh;
    shallow = omega (arith, h.shallow);
    windows = h.windows;
  }
  Good-scalar_unary d f (problem _ _) h = tt
  Good-scalar_unary d f key_error h = tt

  Good-scalar_call :
      (d col : ℕ) (f : UnaryFunction Float)
      (args : List (Expr Float × Parsed (Node Float Indicator))) (kws : Keywords Float)
      → GoodArgs (d + 1) args
      → Good fl im catalog d (parse_scalar_call fl catalog col f args kws)
  unfolding parse_scalar_call
  Good-scalar_call d col f ((e, child) ∷ []) Keywords.no_keywords good =
      Good-scalar_unary d f child good.0
  Good-scalar_call d col f _ _ good = tt

  module _ (d col : ℕ) (definition : IndicatorDefinition Float) (le : d ≤ max_depth) where
    Good-read_look_back :
        (values : Dict (Number Float)) (wanted : Output)
        → Good fl im catalog d (read_look_back fl catalog definition values wanted)
    unfolding read_look_back
    Good-read_look_back values wanted =
        Ensures-skip (IsParsed fl im catalog d)
          (or_key_error (screen_look_back_bars fl definition values))
          (λ bars. ok (build_node fl catalog definition values wanted bars))
          λ bars. record { fresh = tt; shallow = omega arith; windows = tt }

    Good-refuse_problems :
        (parameters : Dict (Number Float)) (wanted : Output) (problems : List IndicatorProblem)
        → Good fl im catalog d
            (refuse_problems fl catalog col definition parameters wanted problems)
    unfolding refuse_problems
    Good-refuse_problems parameters wanted problems =
        let values = with_defaults definition.parameters parameters in
        Ensures-skip (IsParsed fl im catalog d)
          (first_problem fl (col + 1) (problems ++ check_output fl definition wanted))
          (λ _. read_look_back fl catalog definition values wanted)
          λ _. Good-read_look_back values wanted

    Good-check_call :
        (wanted : Output) (parameters : Dict (Number Float))
        → Good fl im catalog d (check_call fl catalog col definition wanted parameters)
    unfolding check_call
    Good-check_call wanted parameters =
        Ensures-skip (IsParsed fl im catalog d)
          (or_key_error (check_parameters fl definition (mapping (as_mapping fl parameters))))
          (refuse_problems fl catalog col definition parameters wanted)
          (Good-refuse_problems parameters wanted)

    Good-catalog_call :
        (args : List (Expr Float)) (kws : Keywords Float)
        → Good fl im catalog d (parse_catalog_call fl catalog col definition args kws)
    unfolding parse_catalog_call
    Good-catalog_call args kws =
        elim (Bool-cases (ltb (length definition.parameters) (length args))) [
          | inl more ↦ rw more tt
          | inr fits ↦ rw fits (
              Ensures-skip (IsParsed fl im catalog d)
                (read_keywords fl col kws (zip_names fl definition.parameters args) no_output)
                (λ x. read_parameters fl x.0 >>= check_call fl catalog col definition x.1)
                λ x.
                  Ensures-skip (IsParsed fl im catalog d) (read_parameters fl x.0)
                    (check_call fl catalog col definition x.1) (Good-check_call x.1))
        ]

  pub Good-named_call :
      (d col : ℕ) (key : String) (args : List (Expr Float × Parsed (Node Float Indicator)))
      (kws : Keywords Float)
      → d ≤ max_depth
      → GoodArgs (d + 1) args
      → Good fl im catalog d (parse_named_call fl catalog col key args kws)
  unfolding parse_named_call
  Good-named_call d col key args kws le good = elim (Option-cases (rolling_functions key)) [
    | inr (f, e) ↦ rw (e, parse_named_call) (Good-window_call d col (some f) kws args good)
    | inl e ↦
        rw (e, parse_named_call)
          (elim (Bool-cases (str_eq key "lag")) [
            | inl lag ↦ rw lag (Good-window_call d col none kws args good)
            | inr no_lag ↦ rw no_lag (elim (Option-cases (scalar_functions {F = Float} key)) [
              | inr (f, e') ↦ rw e' (Good-scalar_call d col f args kws good)
              | inl e' ↦ rw e' (elim (Option-cases (indicator_catalog fl key)) [
                | inr (definition, e'') ↦
                    rw e'' (Good-catalog_call d col definition le (map (λ a. a.0) args) kws)
                | inl e'' ↦ rw e'' tt
              ])
            ])
          ])
  ]

  pub Good-call :
      (d col : ℕ) (func : Expr Float) (args : List (Expr Float × Parsed (Node Float Indicator)))
      (kws : Keywords Float)
      → d ≤ max_depth
      → GoodArgs (d + 1) args
      → Good fl im catalog d (parse_call fl catalog col func args kws)
  unfolding parse_call
  Good-call d col (attribute c _ _) args kws le good = tt
  Good-call d col (name _ id) args kws le good = Good-named_call d col id args kws le good
  Good-call d col _ args kws le good = tt
