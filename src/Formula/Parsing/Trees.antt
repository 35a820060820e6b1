-- ===== src/Formula/Parsing/Trees.antt =====
-- What holds of the tree of a whole expression.
use Prim.Native.String.{String}
use atrade.Prelude.{ℕ, ◌+◌, ◌*◌, ◌≤◌, arith, ltb, Bool-cases, Option-cases, inl, inr, if◌then◌else◌}
use atrade.Formula.Floats.{Floats, Number}
use atrade.Formula.Measure.{IntegerMath}
use atrade.Formula.Node.{
  Node, UnaryFunction, BinaryFunction, CatalogClass, number_node, scalar_unary, scalar_binary,
  look_back, window_bars,
}
use atrade.Formula.Meaning.{IsFresh}
use atrade.Formula.Syntax.{
  Message, BinaryOperator, UnaryOperator, Expr, Args, Parsed, ok, problem, key_error, ◌>>=◌,
  Constant, constant, name, bin_op, unary_op, call, attribute, other, no_args, arg,
}
use atrade.Formula.Reading.{
  max_depth, read_exponent, read_number, read_bar_field, bar_fields, max_look_back_bars,
  max_calculation_bars,
}
use atrade.Formula.Parser.{
  parse_binary, parse_unary, parse_node, parse_args, check_limits, parse_expression, Python,
  read_tree,
}
use atrade.Formula.Parsing.{Ensures, Ensures-bind, Ensures-skip, IsParsed, Good, levels, HasWindows}
use atrade.Formula.Parsing.Calls.{GoodArgs, Good-scalar_unary, Good-call}

module _ (fl : Floats) (im : IntegerMath) (catalog : CatalogClass fl.Float) where
  open fl use {Float}
  open catalog use {Indicator}

  -- A tree one level down is good one level up, as the result of `+x`.
  Good-lift :
      (d : ℕ) (r : Parsed (Node Float Indicator))
      → Good fl im catalog (d + 1) r
      → Good fl im catalog d r
  Good-lift d (ok n) h = record {
    fresh = h.fresh;
    shallow = omega (arith, h.shallow);
    windows = h.windows;
  }
  Good-lift d (problem _ _) h = tt
  Good-lift d key_error h = tt

  Good-scalar_binary :
      (d : ℕ) (f : BinaryFunction) (l r : Parsed (Node Float Indicator))
      → Good fl im catalog (d + 1) l
      → Good fl im catalog (d + 1) r
      → Good fl im catalog d (l >>= λ l'. r >>= λ r'. ok (scalar_binary f l' r'))
  Good-scalar_binary d f (ok m) (ok n) h k = record {
    fresh = (h.fresh, k.fresh);
    shallow = omega (arith, h.shallow, k.shallow);
    windows = (h.windows, k.windows);
  }
  Good-scalar_binary d f (ok m) (problem _ _) h k = tt
  Good-scalar_binary d f (ok m) key_error h k = tt
  Good-scalar_binary d f (problem _ _) r h k = tt
  Good-scalar_binary d f key_error r h k = tt

  Good-power :
      (d : ℕ) (exponent : Parsed (Number Float)) (l : Parsed (Node Float Indicator))
      → Good fl im catalog (d + 1) l
      → Good fl im catalog d
          (exponent >>= λ e. l >>= λ l'. ok (scalar_unary (UnaryFunction.raise_to_exponent e) l'))
  Good-power d (ok e) l h =
      Good-scalar_unary fl im catalog d (UnaryFunction.raise_to_exponent e) l h
  Good-power d (problem _ _) l h = tt
  Good-power d key_error l h = tt

  Good-binary :
      (d col : ℕ) (op : BinaryOperator) (right : Expr Float)
      (left_node right_node : Parsed (Node Float Indicator))
      → Good fl im catalog (d + 1) left_node
      → Good fl im catalog (d + 1) right_node
      → Good fl im catalog d (parse_binary fl catalog col op right left_node right_node)
  unfolding parse_binary
  Good-binary d col BinaryOperator.pow_operator right l r hl hr =
      Good-power d (read_exponent fl right) l hl
  Good-binary d col BinaryOperator.add_operator right l r hl hr =
      Good-scalar_binary d BinaryFunction.add l r hl hr
  Good-binary d col BinaryOperator.sub_operator right l r hl hr =
      Good-scalar_binary d BinaryFunction.subtract l r hl hr
  Good-binary d col BinaryOperator.mult_operator right l r hl hr =
      Good-scalar_binary d BinaryFunction.multiply l r hl hr
  Good-binary d col BinaryOperator.div_operator right l r hl hr =
      Good-scalar_binary d BinaryFunction.divide l r hl hr
  Good-binary d col BinaryOperator.other_binary right l r hl hr = tt

  Good-unary :
      (d col : ℕ) (op : UnaryOperator) (operand : Parsed (Node Float Indicator))
      → Good fl im catalog (d + 1) operand
      → Good fl im catalog d (parse_unary fl catalog col op operand)
  unfolding parse_unary
  Good-unary d col UnaryOperator.uadd operand h = Good-lift d operand h
  Good-unary d col UnaryOperator.usub operand h =
      Good-scalar_unary fl im catalog d UnaryFunction.negate operand h
  Good-unary d col UnaryOperator.other_unary operand h = tt

  Good-leaf :
      (d col : ℕ) (c : Constant Float)
      → d ≤ max_depth
      → Good fl im catalog d (read_number fl col c >>= λ x. ok (number_node x))
  Good-leaf d col c le =
      Ensures-skip (IsParsed fl im catalog d) (read_number fl col c) (λ x. ok (number_node x))
        λ x. record { fresh = tt; shallow = omega arith; windows = tt }

  Good-bar_field :
      (d col : ℕ) (id : String)
      → d ≤ max_depth
      → Good fl im catalog d (read_bar_field fl {I = Indicator} col id)
  unfolding read_bar_field
  Good-bar_field d col id le = elim (Option-cases (bar_fields id)) [
    | inl e ↦ rw (e, read_bar_field) tt
    | inr (f, e) ↦
        rw (e, read_bar_field) (record { fresh = tt; shallow = omega arith; windows = tt })
  ]

  -- The test of the depth, and the rest.
  Good-if :
      (d col : ℕ) (r : Parsed (Node Float Indicator))
      → (d ≤ max_depth → Good fl im catalog d r)
      → Good fl im catalog d (if ltb max_depth d then problem (col + 1) Message.too_deep else r)
  Good-if d col r h = elim (Bool-cases (ltb max_depth d)) [
    | inl deep ↦ rw deep tt
    | inr fits ↦ rw fits (h (ground arith))
  ]

  mutual
    unfolding parse_node

    parse_node-Good : (e : Expr Float) (d : ℕ) → Good fl im catalog d (parse_node fl catalog e d)
    parse_node-Good (constant col c) d = Good-if d col _ (Good-leaf d col c)
    parse_node-Good (name col id) d = Good-if d col _ (Good-bar_field d col id)
    parse_node-Good (bin_op col left op right) d = Good-if d col _ λ le.
        Good-binary d col op right _ _ (parse_node-Good left (d + 1))
          (parse_node-Good right (d + 1))
    parse_node-Good (unary_op col op operand) d =
        Good-if d col _ λ le. Good-unary d col op _ (parse_node-Good operand (d + 1))
    parse_node-Good (call col func args kws) d =
        Good-if d col _
          λ le. Good-call fl im catalog d col func _ kws le (parse_args-Good args (d + 1))
    parse_node-Good (attribute col _ _) d = tt
    parse_node-Good (other col) d = tt

    parse_args-Good :
        (args : Args Float) (d : ℕ) → GoodArgs fl im catalog d (parse_args fl catalog args d)
    parse_args-Good no_args d = tt
    parse_args-Good (arg e args) d = (parse_node-Good e d, parse_args-Good args d)

  -- What a tree has that `parse_expression` gives.
  pub record IsWithinLimits (n : Node Float Indicator) : Type 0 where
    pub fresh : IsFresh fl im catalog n
    pub depth : levels n ≤ max_depth
    pub windows : HasWindows n
    pub reads : look_back n ≤ max_look_back_bars
    pub calculation : window_bars n * look_back n ≤ max_calculation_bars

  check_limits-IsWithinLimits :
      (n : Node Float Indicator)
      → IsParsed fl im catalog 1 n
      → Ensures IsWithinLimits (check_limits fl catalog n)
  unfolding check_limits
  check_limits-IsWithinLimits n h = elim (Bool-cases (ltb max_look_back_bars (look_back n))) [
    | inl long ↦ rw long tt
    | inr reads ↦
        rw reads (elim (Bool-cases (ltb max_calculation_bars (window_bars n * look_back n))) [
          | inl much ↦ rw much tt
          | inr little ↦ rw little (record {
            fresh = h.fresh;
            depth = omega (arith, h.shallow);
            windows = h.windows;
            reads = ground arith;
            calculation = ground arith;
          })
        ])
  ]

  -- A tree that the parser gives has fresh nodes, at most 20 levels, windows that their measures can
  -- use, and is within the limits of the bars that it reads and of the calculation.
  pub parse_expression-IsWithinLimits :
      (python : Python Float) (expression : String)
      → Ensures IsWithinLimits (parse_expression fl catalog python expression)
  unfolding parse_expression
  parse_expression-IsWithinLimits python expression =
      Ensures-skip IsWithinLimits (read_tree python expression)
        (λ node. parse_node fl catalog node 1 >>= check_limits fl catalog)
        λ node.
          Ensures-bind (IsParsed fl im catalog 1) IsWithinLimits (parse_node fl catalog node 1)
            (check_limits fl catalog) (parse_node-Good node 1) check_limits-IsWithinLimits
