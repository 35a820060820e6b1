-- ===== src/Formula/Floats.antt =====
-- Python's floats, as far as formula_indicator.py uses them. The standard library's arithmetic is
-- not modelled: a finite float is an element of an abstract type. Each operation gives `none` where
-- Python raises an ArithmeticError or a ValueError and where the result is NaN or infinite, which is
-- what `calculate` makes of it.
use atrade.Prelude.{ℕ, ◌≡◌, Bool, true, false, Option}
use atrade.Prelude.Int.{ℤ}

-- A number of Python: an `int`, a finite `float`, or an infinite `float`.
pub data Number (F : Type 0) : Type 0 where
  int : ℤ → Number F
  float : F → Number F
  infinite : Number F

pub record Floats : Type 1 where
  pub Float : Type 0
  pub lt : Float → Float → Bool
  pub eq : Float → Float → Bool
  pub add : Float → Float → Option Float
  pub subtract : Float → Float → Option Float
  pub multiply : Float → Float → Option Float
  pub divide : Float → Float → Option Float
  pub negate : Float → Option Float
  pub absolute : Float → Option Float
  pub log : Float → Option Float
  -- `math.pow` with a fixed exponent, an `int` or a `float`.
  pub power : Float → Number Float → Option Float
  -- `float.as_integer_ratio` of a finite float.
  pub as_integer_ratio : Float → ℤ × ℕ
  -- `int / int`, the true division.
  pub ratio : ℤ → ℕ → Option Float
  -- `float / int`.
  pub divide_by_count : Float → ℕ → Option Float
  -- `float(…)` of an `int` or a `float`; `none` is an OverflowError or an infinite result.
  pub to_float : Number Float → Option Float
  -- `abs(…) <= n`, and `<=` between numbers.
  pub magnitude_at_most : Number Float → ℕ → Bool
  pub number_le : Number Float → Number Float → Bool
  -- A float literal with one decimal place, in tenths.
  pub tenths : ℕ → Float
  -- `-x` of a number, and `int(x)` of a number that is 0 or more.
  pub number_negate : Number Float → Number Float
  pub truncate : Number Float → ℕ

-- The order of the finite floats: a strict weak order, and `==` tells no float from itself and no
-- smaller from a greater one.
pub record FloatOrder (fl : Floats) : Type 0 where
  pub lt_trans : (a b c : fl.Float) → fl.lt a b ≡ true → fl.lt b c ≡ true → fl.lt a c ≡ true
  pub lt_ntrans : (a b c : fl.Float) → fl.lt a b ≡ false → fl.lt b c ≡ false → fl.lt a c ≡ false
  pub eq_refl : (a : fl.Float) → fl.eq a a ≡ true
  pub eq_not_lt : (a b : fl.Float) → fl.lt a b ≡ true → fl.eq a b ≡ false
  pub eq_not_gt : (a b : fl.Float) → fl.lt b a ≡ true → fl.eq a b ≡ false
