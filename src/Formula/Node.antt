-- ===== src/Formula/Node.antt =====
-- The tree of nodes of a formula (backend/src/atrade/indicator/formula_indicator.py). The classes
-- behind the protocol `FormulaNode` are the constructors of one type, and their attributes the
-- fields. A node gets each bar, and `update` gives the new node and the value. The catalog's
-- indicator classes stand behind an interface.
use Prim.Native.String.{String}
use atrade.Prelude.{
  ℕ, ◌+◌, ◌-◌, max, List, [], ◌∷◌, ◌++◌, Option, none, some, if◌then◌else◌, ltb, ◌==◌, ◌>>=◌,
  length,
}
use atrade.Catalog.{IndicatorClass, Dict}
use atrade.Formula.Floats.{Floats, Number}
use atrade.Formula.Measure.{Measure, IntegerMath, measure_add, measure_remove, measure_read}

-- The prices of a NautilusTrader bar, read by `as_double`.
pub record NautilusBar (F : Type 0) : Type 0 where
  pub open_price : F
  pub high_price : F
  pub low_price : F
  pub close_price : F
  pub bar_volume : F

-- `BAR_FIELDS`
pub data BarField : Type 0 where
  open_field high low close volume : BarField

-- The functions that a `ScalarNode` holds.
pub data UnaryFunction (F : Type 0) : Type 0 where
  negate find_absolute find_log : UnaryFunction F
  raise_to_exponent : Number F → UnaryFunction F

pub data BinaryFunction : Type 0 where
  add subtract multiply divide : BinaryFunction

-- `CatalogIndicator`: a class of the indicator catalog, and the read of one of its outputs.
pub record CatalogClass (F : Type 0) : Type 1 where
  pub Indicator : Type 0
  -- `definition.indicator_class(**values)`
  pub construct : IndicatorClass → Dict (Number F) → Indicator
  pub handle_bar : Indicator → NautilusBar F → Indicator
  pub output : Indicator → String → Option F

-- `I` is the type of the catalog's indicator objects.
pub data Node (F I : Type 0) : Type 0 where
  number_node : F → Node F I
  bar_field_node : BarField → Node F I
  scalar_unary : UnaryFunction F → Node F I → Node F I
  scalar_binary : BinaryFunction → Node F I → Node F I → Node F I
  rolling_node :
      (measure : Measure F) (child : Node F I) (window : ℕ) (values : List (Option F))
      (known_count : ℕ)
      → Node F I
  lag_node : (child : Node F I) (bars : ℕ) (values : List (Option F)) → Node F I
  catalog_node : (indicator : I) (output : String) (look_back window_bars : ℕ) → Node F I

module _ {F I : Type 0} where
  -- The `look_back` of each class.
  unfoldable pub look_back : Node F I → ℕ
  look_back (number_node _) = 1
  look_back (bar_field_node _) = 1
  look_back (scalar_unary _ child) = look_back child
  look_back (scalar_binary _ left right) = max (look_back left) (look_back right)
  look_back (rolling_node _ child window _ _) = look_back child + window - 1
  look_back (lag_node child bars _) = look_back child + bars
  look_back (catalog_node _ _ bars _) = bars

  -- The `window_bars` of each class.
  unfoldable pub window_bars : Node F I → ℕ
  window_bars (number_node _) = 0
  window_bars (bar_field_node _) = 0
  window_bars (scalar_unary _ child) = window_bars child
  window_bars (scalar_binary _ left right) = window_bars left + window_bars right
  window_bars (rolling_node _ child window _ _) = window_bars child + window
  window_bars (lag_node child bars _) = window_bars child + bars
  window_bars (catalog_node _ _ _ bars) = bars

-- `deque(maxlen=…).append`
module _ {A : Type 0} where
  abbrev pub tail : List A → List A
  tail [] = []
  tail (_ ∷ xs) = xs

  unfoldable pub append_bounded : ℕ → List A → A → List A
  append_bounded maxlen values value =
      let longer = values ++ value ∷ [] in
      if ltb maxlen (length longer) then tail longer else longer

-- `getattr(bar, self.name).as_double()`
unfoldable pub read_field : {F : Type 0} → BarField → NautilusBar F → F
read_field open_field bar = bar.open_price
read_field high bar = bar.high_price
read_field low bar = bar.low_price
read_field close bar = bar.close_price
read_field volume bar = bar.bar_volume

module _ (fl : Floats) where
  open fl use {Float}

  unfoldable pub apply_unary : UnaryFunction Float → Float → Option Float
  apply_unary negate value = fl.negate value
  apply_unary find_absolute value = fl.absolute value
  apply_unary find_log value = fl.log value
  apply_unary (raise_to_exponent exponent) value = fl.power value exponent

  unfoldable pub apply_binary : BinaryFunction → Float → Float → Option Float
  apply_binary add left right = fl.add left right
  apply_binary subtract left right = fl.subtract left right
  apply_binary multiply left right = fl.multiply left right
  apply_binary divide left right = fl.divide left right

module _ (fl : Floats) (im : IntegerMath) where
  open fl use {Float}

  -- The first lines of `RollingNode.update`: the oldest value of a full window goes. `none` is the
  -- IndexError of `self.values[0]` or of the measure.
  unfoldable pub expire : Measure Float → ℕ → List (Option Float) → Option (Measure Float × ℕ)
  expire measure known_count [] = none
  expire measure known_count (none ∷ _) = some (measure, known_count)
  expire measure known_count (some value ∷ _) = do
    measure' ← measure_remove fl im measure value
    some (measure', known_count - 1)

  unfoldable pub drop_oldest :
      Measure Float → ℕ → List (Option Float) → ℕ → Option (Measure Float × ℕ)
  unfolding expire
  drop_oldest measure window values known_count =
      if length values == window
      then expire measure known_count values
      else some (measure, known_count)

  -- `if value is not None: self.measure.add(value)`
  unfoldable pub take_in : Measure Float → ℕ → Option Float → Measure Float × ℕ
  take_in measure known_count none = (measure, known_count)
  take_in measure known_count (some value) = (measure_add fl im measure value, known_count + 1)

  -- The last lines of `RollingNode.update`.
  unfoldable pub read_window_value : Measure Float → ℕ → ℕ → Option (Option Float)
  read_window_value measure window known_count =
      if ltb known_count window then some none else measure_read fl im measure window

-- `self.values[0] if len(self.values) > self.bars else None`
unfoldable pub oldest_value : {F : Type 0} → ℕ → List (Option F) → Option F
oldest_value bars [] = none
oldest_value bars (value ∷ values) = if ltb bars (length (value ∷ values)) then value else none

module _ (fl : Floats) (im : IntegerMath) (catalog : CatalogClass fl.Float) where
  open fl use {Float}
  open catalog use {Indicator, handle_bar, output}

  -- `update`. An outer `none` is an IndexError, an inner one is "no value".
  unfoldable pub update :
      NautilusBar Float → Node Float Indicator → Option (Node Float Indicator × Option Float)
  unfolding read_field apply_unary apply_binary drop_oldest take_in read_window_value oldest_value
      append_bounded
  update bar (number_node number) = some (number_node number, some number)
  update bar (bar_field_node name) = some (bar_field_node name, some (read_field name bar))
  update bar (scalar_unary function child) = do
    (child', value) ← update bar child
    some (scalar_unary function child', value >>= apply_unary fl function)
  update bar (scalar_binary function left right) = do
    (left', a) ← update bar left
    (right', b) ← update bar right
    some (scalar_binary function left' right', a >>= λ x. b >>= λ y. apply_binary fl function x y)
  update bar (rolling_node measure child window values known_count) = do
    (measure', known') ← drop_oldest fl im measure window values known_count
    (child', value) ← update bar child
    let (measure'', known'') = take_in fl im measure' known' value
    result ← read_window_value fl im measure'' window known''
    some (rolling_node measure'' child' window (append_bounded window values value) known'', result)
  update bar (lag_node child bars values) = do
    (child', value) ← update bar child
    let values' = append_bounded (bars + 1) values value
    some (lag_node child' bars values', oldest_value bars values')
  update bar (catalog_node indicator name bars window) =
      let indicator' = handle_bar indicator bar in
      some (catalog_node indicator' name bars window, output indicator' name)
