-- ===== src/Formula/Measure.antt =====
-- The window measures of backend/src/atrade/indicator/formula_indicator.py: `WindowSum`,
-- `WindowMean`, `WindowDeviation` and `WindowExtreme`. Each bar adds one value and removes one, so
-- no bar reads the whole window. The subclasses are the constructors of one type.
use atrade.Prelude.{
  ℕ, ◌+◌, ◌-◌, ◌*◌, ◌/◌, ◌^◌, Bool, List, [], ◌∷◌, ◌++◌, Option, none, some, if◌then◌else◌, ◌>>=◌,
  ◌==◌,
}
use atrade.Prelude.Int.{ℤ, pos, negsuc, ◌+ℤ◌, ◌-ℤ◌, ◌*ℤ◌}
use atrade.Formula.Floats.{Floats}

-- `EXACT_UNIT_BITS`: each finite float is an integer multiple of 2^-1074.
abbrev pub exact_unit_bits : ℕ
exact_unit_bits = 1074

unfoldable pub exact_one : ℕ
exact_one = 2 ^ exact_unit_bits

-- `SQUARE_ROOT_BITS`
abbrev pub square_root_bits : ℕ
square_root_bits = 64

-- `maximum` and `minimum` are `WindowExtreme` with `operator.lt` and with `operator.gt`.
pub data Extreme : Type 0 where
  maximum minimum : Extreme

pub data Measure (F : Type 0) : Type 0 where
  window_sum : (total : ℤ) → Measure F
  window_mean : (total : ℤ) → Measure F
  window_deviation : (total squares : ℤ) → Measure F
  window_extreme : Extreme → (kept : List F) → Measure F

-- The values of `ROLLING_FUNCTIONS`: the constructors of the measures, by name.
pub data RollingFunction : Type 0 where
  mean max min sum std : RollingFunction

unfoldable pub make_measure : {F : Type 0} → RollingFunction → Measure F
make_measure mean = window_mean (pos 0)
make_measure max = window_extreme maximum []
make_measure min = window_extreme minimum []
make_measure sum = window_sum (pos 0)
make_measure std = window_deviation (pos 0) (pos 0)

-- `math.isqrt`, a function of the standard library, and the bit length of a positive integer.
pub record IntegerMath : Type 0 where
  pub isqrt : ℕ → ℕ
  pub bit_length : ℕ → ℕ

module _ (fl : Floats) (im : IntegerMath) where
  open fl use {Float, lt, eq, ratio, divide_by_count, as_integer_ratio}
  open im use {isqrt, bit_length}

  -- A finite float as an integer number of `EXACT_ONE` parts. The denominator is a power of 2 that
  -- is at most 2^1074, so the shift is not negative.
  unfoldable pub to_exact : Float → ℤ
  to_exact value =
      let (numerator, denominator) = as_integer_ratio value in
      numerator *ℤ pos (2 ^ (exact_unit_bits + 1 - bit_length denominator))

  -- `is_beaten_by`
  unfoldable pub is_beaten_by : Extreme → Float → Float → Bool
  is_beaten_by maximum kept value = lt kept value
  is_beaten_by minimum kept value = lt value kept

  -- One value of the deque in front of those that stay: it goes if none of them stays and it is
  -- beaten.
  unfoldable pub pop_last : Extreme → Float → Float → List Float → List Float
  unfolding is_beaten_by
  pop_last e value x [] = if is_beaten_by e x value then [] else x ∷ []
  pop_last e value x (y ∷ kept) = x ∷ y ∷ kept

  -- `while self.kept and self.is_beaten_by(self.kept[-1], value): self.kept.pop()`: the last values
  -- of the deque go as long as each is beaten.
  unfoldable pub pop_beaten : Extreme → Float → List Float → List Float
  unfolding pop_last
  pop_beaten e value [] = []
  pop_beaten e value (x ∷ kept) = pop_last e value x (pop_beaten e value kept)

  -- `add`
  unfoldable pub measure_add : Measure Float → Float → Measure Float
  unfolding pop_beaten
  measure_add (window_sum total) value = window_sum (total +ℤ to_exact value)
  measure_add (window_mean total) value = window_mean (total +ℤ to_exact value)
  measure_add (window_deviation total squares) value =
      window_deviation (total +ℤ to_exact value) (squares +ℤ to_exact value *ℤ to_exact value)
  measure_add (window_extreme e kept) value =
      window_extreme e (pop_beaten e value kept ++ value ∷ [])

  -- `WindowExtreme.remove`. `none` is the IndexError of `self.kept[0]`.
  unfoldable pub remove_kept : Extreme → List Float → Float → Option (Measure Float)
  remove_kept e [] value = none
  remove_kept e (x ∷ kept) value = some (window_extreme e (if eq x value then kept else x ∷ kept))

  -- `remove`
  unfoldable pub measure_remove : Measure Float → Float → Option (Measure Float)
  unfolding remove_kept
  measure_remove (window_sum total) value = some (window_sum (total -ℤ to_exact value))
  measure_remove (window_mean total) value = some (window_mean (total -ℤ to_exact value))
  measure_remove (window_deviation total squares) value =
      some
        (window_deviation (total -ℤ to_exact value) (squares -ℤ to_exact value *ℤ to_exact value))
  measure_remove (window_extreme e kept) value = remove_kept e kept value

  -- `WindowSum.read`
  unfoldable pub read_sum : ℤ → Option Float
  read_sum total = ratio total exact_one

  -- `WindowMean.read`
  unfoldable pub read_mean : ℤ → ℕ → Option Float
  unfolding read_sum
  read_mean total count = do window_total ← read_sum total; divide_by_count window_total count

  -- `WindowDeviation.read`. `math.isqrt` raises a ValueError for a negative number, and `//` a
  -- ZeroDivisionError: both are "no value".
  unfoldable pub read_deviation : ℤ → ℤ → ℕ → Option Float
  read_deviation total squares count =
      root (pos count *ℤ squares -ℤ total *ℤ total) (count * (count - 1))
    where
      root : ℤ → ℕ → Option Float
      root (negsuc _) divisor = none
      root (pos spread) divisor =
          if divisor == 0
          then none
          else ratio (pos (isqrt (spread * 2 ^ (2 * square_root_bits) / divisor)))
              (exact_one * 2 ^ square_root_bits)

  -- `self.kept[0]`
  unfoldable pub first_kept : List Float → Option (Option Float)
  first_kept [] = none
  first_kept (x ∷ kept) = some (some x)

  -- `calculate(read(count))`: an outer `none` is an IndexError, an inner one is "no value".
  unfoldable pub measure_read : Measure Float → ℕ → Option (Option Float)
  unfolding read_sum read_mean read_deviation first_kept
  measure_read (window_sum total) count = some (read_sum total)
  measure_read (window_mean total) count = some (read_mean total count)
  measure_read (window_deviation total squares) count = some (read_deviation total squares count)
  measure_read (window_extreme e kept) count = first_kept kept
