-- ===== src/Examples/Numbers.antt =====
-- A small instance of the parameters of the formulas: whole numbers for the floats, a catalog whose
-- indicators keep the last close, and a parser that knows one text.
use atrade.Prelude.{ℕ, ◌+◌, ◌/◌, Bool, false, Option, none, some, leb, ◌==◌, if◌then◌else◌, arith}
use atrade.Prelude.Int.{ℤ, pos, negsuc, ◌+ℤ◌, ◌-ℤ◌, ◌*ℤ◌, ltb_ℤ, eqb_ℤ, leb_ℤ, magnitude, sub_ℕ}
use atrade.Formula.Floats.{Number, Floats, FloatOrder}
use atrade.Formula.Measure.{IntegerMath}
use atrade.Formula.Node.{NautilusBar, CatalogClass}
use atrade.Formula.Syntax.{
  number, Expr, constant, name, call, bin_op, BinaryOperator, no_args, arg, no_keywords,
}
use atrade.Formula.Parser.{tree, Python}

-- A quotient is rounded toward 0.
abbrev quotient : ℤ → ℕ → Option ℤ
quotient (pos a) n = if n == 0 then none else some (pos (a / n))
quotient (negsuc a) n = if n == 0 then none else some (sub_ℕ 0 ((a + 1) / n))

abbrev divided : ℤ → ℤ → Option ℤ
divided a (pos n) = quotient a n
divided a (negsuc n) = quotient (pos 0 -ℤ a) (n + 1)

abbrev whole : Number ℤ → Option ℤ
whole (Number.int n) = some n
whole (Number.float n) = some n
whole Number.infinite = none

abbrev whole_le : Number ℤ → Number ℤ → Bool
whole_le (Number.int a) (Number.int b) = leb_ℤ a b
whole_le _ _ = false

abbrev opposite : Number ℤ → Number ℤ
opposite (Number.int n) = Number.int (pos 0 -ℤ n)
opposite n = n

abbrev at_most : Number ℤ → ℕ → Bool
at_most (Number.int n) m = leb (magnitude n) m
at_most _ m = false

abbrev size_of : Number ℤ → ℕ
size_of (Number.int n) = magnitude n
size_of _ = 0

abbrev pub whole_floats : Floats
whole_floats = record {
  Float = ℤ;
  lt = ltb_ℤ;
  eq = eqb_ℤ;
  add = λ a b. some (a +ℤ b);
  subtract = λ a b. some (a -ℤ b);
  multiply = λ a b. some (a *ℤ b);
  divide = divided;
  negate = λ a. some (pos 0 -ℤ a);
  absolute = λ a. some (pos (magnitude a));
  log = λ a. none;
  power = λ a n. none;
  as_integer_ratio = λ a. (a, 1);
  ratio = quotient;
  divide_by_count = quotient;
  to_float = whole;
  magnitude_at_most = at_most;
  number_le = whole_le;
  tenths = λ n. pos (n / 10);
  number_negate = opposite;
  truncate = size_of;
}

pub whole_order : FloatOrder whole_floats
whole_order = record {
  lt_trans = λ a b c p q. ground arith;
  lt_ntrans = λ a b c p q. ground arith;
  eq_refl = λ a. ground arith;
  eq_not_lt = λ a b p. ground arith;
  eq_not_gt = λ a b p. ground arith;
}

abbrev pub whole_math : IntegerMath
whole_math = record { isqrt = λ n. n; bit_length = λ n. n }

-- The only value of an indicator is the last close.
abbrev pub day_close : CatalogClass ℤ
day_close = record {
  Indicator = Option ℤ;
  construct = λ c values. none;
  handle_bar = λ i bar. some bar.close_price;
  output = λ i key. i;
}

-- `max(close, 2) - lag(sma(3), 1)`
abbrev spread_tree : Expr ℤ
spread_tree =
    bin_op 0
      (call 0 (name 0 "max")
        (arg (name 4 "close") (arg (constant 11 (number (Number.int (pos 2)))) no_args))
        no_keywords)
      BinaryOperator.sub_operator
      (call 16 (name 16 "lag")
        (arg
          (call 20 (name 20 "sma") (arg (constant 24 (number (Number.int (pos 3)))) no_args)
            no_keywords)
          (arg (constant 28 (number (Number.int (pos 1)))) no_args))
        no_keywords)

abbrev pub python : Python ℤ
python = record { strip = λ s. s; ast_parse = λ s. tree spread_tree }

abbrev pub bar_at : ℕ → NautilusBar ℤ
bar_at p = record {
  open_price = pos p;
  high_price = pos p;
  low_price = pos p;
  close_price = pos p;
  bar_volume = pos 1;
}
