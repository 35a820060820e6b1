-- ===== src/Formula/Syntax.antt =====
-- The trees of Python's `ast` module that formula_indicator.py reads, and what its parser refuses.
use Prim.Native.String.{String}
use atrade.Prelude.{ℕ, ◌+◌, List, [], ◌∷◌, Option, none, some}
use atrade.Formula.Floats.{Number}
use atrade.Catalog.Problems.{IndicatorProblem}

-- The value of an `ast.Constant`: a text, an `int` or a `float`, or another (a bool, None, …).
pub data Constant (F : Type 0) : Type 0 where
  text : String → Constant F
  number : Number F → Constant F
  other_constant : Constant F

pub data BinaryOperator : Type 0 where
  add_operator sub_operator mult_operator div_operator pow_operator : BinaryOperator
  other_binary : BinaryOperator

pub data UnaryOperator : Type 0 where
  uadd usub other_unary : UnaryOperator

-- Each node has its `col_offset` first. `other` is any other class of node.
mutual
  pub data Expr (F : Type 0) : Type 0 where
    constant : ℕ → Constant F → Expr F
    name : ℕ → String → Expr F
    bin_op : ℕ → Expr F → BinaryOperator → Expr F → Expr F
    unary_op : ℕ → UnaryOperator → Expr F → Expr F
    call : ℕ → Expr F → Args F → Keywords F → Expr F
    attribute : ℕ → Expr F → String → Expr F
    other : ℕ → Expr F

  pub data Args (F : Type 0) : Type 0 where
    no_args : Args F
    arg : Expr F → Args F → Args F

  pub data Keywords (F : Type 0) : Type 0 where
    no_keywords : Keywords F
    keyword : Option String → Expr F → Keywords F → Keywords F

-- The messages of `FormulaProblem`.
pub data Message : Type 0 where
  empty_expression too_long syntax_error not_readable : Message
  too_deep text_not_allowed only_numbers not_finite unknown_name attribute_access : Message
  class_not_allowed operator_not_allowed exponent_range only_function_name unknown_function :
      Message
  no_keyword_arguments needs_two_arguments window_not_integer window_range : Message
  needs_one_argument too_many_arguments double_star given_twice output_not_text : Message
  parameter_not_number reads_too_many_bars too_much_calculation : Message
  indicator_problem : IndicatorProblem → Message

-- What the parser gives: a result, a `FormulaProblem` (column, message), or a KeyError.
pub data Parsed (A : Type 0) : Type 0 where
  ok : A → Parsed A
  problem : ℕ → Message → Parsed A
  key_error : Parsed A

infixl 5 ◌>>=◌
abbrev pub ◌>>=◌ : {A B : Type 0} → Parsed A → (A → Parsed B) → Parsed B
ok a >>= f = f a
problem column message >>= f = problem column message
key_error >>= f = key_error

abbrev pub or_key_error : {A : Type 0} → Option A → Parsed A
or_key_error none = key_error
or_key_error (some a) = ok a

module _ {F : Type 0} where
  abbrev pub col_offset : Expr F → ℕ
  col_offset (constant c _) = c
  col_offset (name c _) = c
  col_offset (bin_op c _ _ _) = c
  col_offset (unary_op c _ _) = c
  col_offset (call c _ _ _) = c
  col_offset (attribute c _ _) = c
  col_offset (other c) = c

  -- `raise refuse(node, …)`
  abbrev pub refuse : {A : Type 0} → Expr F → Message → Parsed A
  refuse node message = problem (col_offset node + 1) message

  abbrev pub args_list : Args F → List (Expr F)
  args_list no_args = []
  args_list (arg e args) = e ∷ args_list args
