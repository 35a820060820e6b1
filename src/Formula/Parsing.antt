-- ===== src/Formula/Parsing.antt =====
-- What holds of every tree that the parser gives.
pub mod Calls
pub mod Trees
use Prim.Native.String.{String}
use atrade.Prelude.{
  ℕ, suc, ◌+◌, ◌*◌, ◌≤◌, ◌≡◌, refl, max, List, [], ◌∷◌, length, Option, none, some, All, arith, ltb,
  leb, Bool-cases, Option-cases, map, ◌++◌, inl, inr, ◌&&◌, if◌then◌else◌, Bool,
}
use atrade.Prelude.Int.{pos}
use package.text.Mathlib.Text.{◌==◌ as str_eq}
use atrade.Catalog.{
  IndicatorDefinition, Dict, maximum_period, with_defaults, screen_look_back_bars,
  indicator_catalog,
}
use atrade.Catalog.Problems.{
  IndicatorProblem, Output, no_output, mapping, check_parameters, check_output,
}
use atrade.Formula.Floats.{Floats, Number, int}
use atrade.Formula.Measure.{
  Measure, RollingFunction, IntegerMath, make_measure, window_deviation, window_sum, window_mean,
  window_extreme,
}
use atrade.Formula.Node.{
  Node, UnaryFunction, CatalogClass, number_node, bar_field_node, scalar_unary, scalar_binary,
  rolling_node, lag_node, catalog_node, look_back, window_bars,
}
use atrade.Formula.Meaning.{function_of, IsFresh}
use atrade.Formula.Syntax.{
  BinaryOperator, UnaryOperator, Expr, Args, Keywords, Parsed, ok, problem, key_error, ◌>>=◌,
  or_key_error, Constant, number, constant, name, bin_op, unary_op, call, attribute, other, no_args,
  arg,
}
use atrade.Formula.Reading.{
  max_depth, minimum_window, read_window, rolling_functions, scalar_functions, max_look_back_bars,
  max_calculation_bars,
}
use atrade.Formula.CatalogCall.{
  parse_catalog_call, build_node, read_look_back, refuse_problems, check_call, first_problem,
  as_mapping, zip_names, read_keywords, read_parameters,
}
use atrade.Formula.Parser.{
  make_window, parse_window_call, parse_scalar_call, parse_named_call, parse_call, parse_binary,
  parse_unary, parse_node, parse_args, check_limits, parse_expression,
}

-- The property holds of the result, if there is one.
abbrev pub Ensures : {A : Type 0} → (A → Type 0) → Parsed A → Type 0
Ensures P (ok a) = P a
Ensures P (problem _ _) = Unit
Ensures P key_error = Unit

-- The least window of the measure: the sample deviation needs 2 values.
abbrev pub least_window : {F : Type 0} → Measure F → ℕ
least_window (window_deviation _ _) = 2
least_window _ = 1

pub Ensures-bind :
    {A B : Type 0} (P : A → Type 0) (Q : B → Type 0) (r : Parsed A) (f : A → Parsed B)
    → Ensures P r
    → ((a : A) → P a → Ensures Q (f a))
    → Ensures Q (r >>= f)
Ensures-bind P Q (ok a) f h k = k a h
Ensures-bind P Q (problem _ _) f h k = tt
Ensures-bind P Q key_error f h k = tt

pub Ensures-skip :
    {A B : Type 0} (Q : B → Type 0) (r : Parsed A) (f : A → Parsed B)
    → ((a : A) → Ensures Q (f a))
    → Ensures Q (r >>= f)
Ensures-skip Q (ok a) f k = k a
Ensures-skip Q (problem _ _) f k = tt
Ensures-skip Q key_error f k = tt

pub read_window-range :
    (fl : Floats) (e : Expr fl.Float) (minimum : ℕ)
    → Ensures (λ n. (minimum ≤ n) × (n ≤ maximum_period)) (read_window fl e minimum)
unfolding read_window
read_window-range fl (constant col (number (int (pos n)))) minimum =
    elim (Bool-cases (leb minimum n && leb n maximum_period)) [
      | inl fits ↦ rw fits (ground arith)
      | inr out ↦ rw out tt
    ]
read_window-range fl _ minimum = tt

module _ {F I : Type 0} where
  -- The levels of a tree of nodes.
  abbrev pub levels : Node F I → ℕ
  levels (number_node x) = 1
  levels (bar_field_node f) = 1
  levels (scalar_unary f child) = suc (levels child)
  levels (scalar_binary f left right) = suc (max (levels left) (levels right))
  levels (rolling_node m child window vs k) = suc (levels child)
  levels (lag_node child bars vs) = suc (levels child)
  levels (catalog_node i o bars window) = 1

  -- Each window has a size that its measure can use, and at most 1000 bars.
  abbrev pub HasWindows : Node F I → Type 0
  HasWindows (number_node x) = Unit
  HasWindows (bar_field_node f) = Unit
  HasWindows (scalar_unary f child) = HasWindows child
  HasWindows (scalar_binary f left right) = HasWindows left × HasWindows right
  HasWindows (rolling_node m child window vs k) =
      HasWindows child × (least_window m ≤ window) × (window ≤ maximum_period)
  HasWindows (lag_node child bars vs) = HasWindows child × (1 ≤ bars) × (bars ≤ maximum_period)
  HasWindows (catalog_node i o bars window) = Unit

module _ (fl : Floats) (im : IntegerMath) (catalog : CatalogClass fl.Float) where
  open fl use {Float}
  open catalog use {Indicator}

  -- A tree that the parser may give at a depth.
  pub record IsParsed (depth : ℕ) (n : Node Float Indicator) : Type 0 where
    pub fresh : IsFresh fl im catalog n
    pub shallow : levels n + depth ≤ suc max_depth
    pub windows : HasWindows n

  abbrev pub Good : ℕ → Parsed (Node Float Indicator) → Type 0
  Good depth = Ensures (IsParsed depth)

  pub Good-make_window :
      (d size : ℕ) (f : Option RollingFunction) (child : Node Float Indicator)
      → IsParsed (d + 1) child
      → minimum_window f ≤ size
      → size ≤ maximum_period
      → IsParsed d (make_window fl catalog f child size)
  unfolding make_window make_measure
  Good-make_window d size none child good p q = record {
    fresh = (good.fresh, refl);
    shallow = omega (arith, good.shallow);
    windows = (good.windows, p, q);
  }
  Good-make_window d size (some RollingFunction.mean) child good p q = record {
    fresh = (good.fresh, p, refl, refl, refl);
    shallow = omega (arith, good.shallow);
    windows = (good.windows, p, q);
  }
  Good-make_window d size (some f) child good p q = record {
    fresh = (good.fresh, omega arith, refl, refl, refl);
    shallow = omega (arith, good.shallow);
    windows = (good.windows, p, q);
  }
