-- ===== src/Catalog.antt =====
-- The indicator catalog (backend/src/atrade/indicator/indicator_catalog.py) and the check of
-- parameters and outputs (backend/src/atrade/indicator/indicator_problems.py). The indicator
-- classes themselves, which wrap classes of NautilusTrader, are named by an enumeration. The texts
-- for the user interface are left out.
pub mod Problems
use Prim.Native.String.{String}
use text.Mathlib.Text.{◌==◌ as str_eq}
use atrade.Prelude.{
  ℕ, ◌+◌, ◌*◌, Bool, true, false, not, ◌&&◌, List, [], ◌∷◌, ◌++◌, Option, none, some, map, any,
  if◌then◌else◌, ◌>>=◌, length, ◌==◌,
}
use atrade.Prelude.Int.{pos}
use atrade.Formula.Floats.{Floats, Number, int, float, infinite}

pub data ValueType : Type 0 where
  int_type float_type : ValueType

pub record IndicatorParameter (F : Type 0) : Type 0 where
  pub name : String
  pub value_type : ValueType
  pub default : Number F
  pub minimum : Number F
  pub maximum : Number F

-- The value of the parameter `smaller` must be less than the value of the parameter `larger`.
pub record ParameterOrder : Type 0 where
  pub smaller : String
  pub larger : String

-- `factor` x the sum of the named parameters, plus `extra_bars`.
pub record ScreenLookBack : Type 0 where
  pub parameter_names : List String
  pub factor : ℕ
  pub extra_bars : ℕ

pub data IndicatorClass : Type 0 where
  sma ema momentum_12_1 distance_to_52_week_high realized_volatility atr : IndicatorClass
  average_trading_value rsi macd bollinger_bands donchian_channel adr_percent : IndicatorClass

pub record IndicatorDefinition (F : Type 0) : Type 0 where
  pub key : String
  pub parameters : List (IndicatorParameter F)
  pub outputs : List String
  pub indicator_class : IndicatorClass
  pub look_back : ScreenLookBack
  pub orders : List ParameterOrder

-- A dict with text keys.
abbrev pub Dict : Type 0 → Type 0
Dict V = List (String × V)

abbrev pub lookup : {V : Type 0} → String → Dict V → Option V
lookup k [] = none
lookup k ((j, v) ∷ d) = if str_eq k j then some v else lookup k d

abbrev pub elem : String → List String → Bool
elem k = any (str_eq k)

abbrev pub maximum_period : ℕ
maximum_period = 1000

abbrev pub recursive_look_back_factor : ℕ
recursive_look_back_factor = 8

abbrev pub get_or : {V : Type 0} → Option V → V → V
get_or none d = d
get_or (some v) _ = v

module _ {F : Type 0} where
  unfoldable pub with_defaults : List (IndicatorParameter F) → Dict (Number F) → Dict (Number F)
  with_defaults [] given = []
  with_defaults (p ∷ ps) given =
      (p.name, get_or (lookup p.name given) p.default) ∷ with_defaults ps given

  abbrev number : ℕ → Number F
  number n = int (pos n)

  -- `make_period_parameter`
  abbrev pub make_period_parameter : String → ℕ → ℕ → IndicatorParameter F
  make_period_parameter name default minimum = record {
    name = name;
    value_type = int_type;
    default = int (pos default);
    minimum = int (pos minimum);
    maximum = int (pos maximum_period);
  }

abbrev pub value_output : List String
value_output = "value" ∷ []

abbrev pub three_lines : List String
three_lines = "upper" ∷ "middle" ∷ "lower" ∷ []

abbrev look_back_of : List String → ℕ → ℕ → ScreenLookBack
look_back_of names factor extra = record {
  parameter_names = names;
  factor = factor;
  extra_bars = extra;
}

abbrev pub period_bars : ScreenLookBack
period_bars = look_back_of ("period" ∷ []) 1 0

abbrev pub recursive_period_bars : ScreenLookBack
recursive_period_bars = look_back_of ("period" ∷ []) recursive_look_back_factor 0

module _ (fl : Floats) where
  open fl use {Float, tenths, truncate, number_le}

  abbrev single :
      String
      → IndicatorParameter Float
      → IndicatorClass
      → ScreenLookBack
      → IndicatorDefinition Float
  single key parameter class look_back = record {
    key = key;
    parameters = parameter ∷ [];
    outputs = value_output;
    indicator_class = class;
    look_back = look_back;
    orders = [];
  }

  -- `INDICATOR_DEFINITIONS`
  unfoldable pub indicator_definitions : List (IndicatorDefinition Float)
  indicator_definitions =
      single "sma" (make_period_parameter "period" 50 1) sma period_bars
      ∷ single "ema" (make_period_parameter "period" 20 1) ema recursive_period_bars
      ∷ record {
        key = "momentum_12_1";
        parameters =
            make_period_parameter "look_back" 252 1
            ∷ record {
              name = "skip";
              value_type = int_type;
              default = int (pos 21);
              minimum = int (pos 0);
              maximum = int (pos 999);
            }
            ∷ [];
        outputs = value_output;
        indicator_class = momentum_12_1;
        look_back = look_back_of ("look_back" ∷ []) 1 1;
        orders = record { smaller = "skip"; larger = "look_back" } ∷ [];
      }
      ∷ single "distance_to_52_week_high" (make_period_parameter "period" 252 1)
          distance_to_52_week_high period_bars
      ∷ record {
        key = "realized_volatility";
        parameters =
            make_period_parameter "period" 60 2
            ∷ record {
              name = "bars_per_year";
              value_type = int_type;
              default = int (pos 252);
              minimum = int (pos 1);
              maximum = int (pos 10000);
            }
            ∷ [];
        outputs = value_output;
        indicator_class = realized_volatility;
        look_back = look_back_of ("period" ∷ []) 1 1;
        orders = [];
      }
      ∷ single "atr" (make_period_parameter "period" 14 1) atr recursive_period_bars
      ∷ single "average_trading_value" (make_period_parameter "period" 20 1) average_trading_value
          period_bars
      ∷ single "rsi" (make_period_parameter "period" 14 1) rsi recursive_period_bars
      ∷ record {
        key = "macd";
        parameters =
            make_period_parameter "fast_period" 12 1
            ∷ make_period_parameter "slow_period" 26 2
            ∷ make_period_parameter "signal_period" 9 1
            ∷ [];
        outputs = "value" ∷ "signal" ∷ "histogram" ∷ [];
        indicator_class = macd;
        look_back =
            look_back_of ("slow_period" ∷ "signal_period" ∷ []) recursive_look_back_factor 0;
        orders = record { smaller = "fast_period"; larger = "slow_period" } ∷ [];
      }
      ∷ record {
        key = "bollinger_bands";
        parameters =
            make_period_parameter "period" 20 1
            ∷ record {
              name = "k";
              value_type = float_type;
              default = float (tenths 20);
              minimum = float (tenths 1);
              maximum = float (tenths 100);
            }
            ∷ [];
        outputs = three_lines;
        indicator_class = bollinger_bands;
        look_back = period_bars;
        orders = [];
      }
      ∷ record {
        key = "donchian_channel";
        parameters = make_period_parameter "period" 20 1 ∷ [];
        outputs = three_lines;
        indicator_class = donchian_channel;
        look_back = period_bars;
        orders = [];
      }
      ∷ single "adr_percent" (make_period_parameter "period" 20 1) adr_percent period_bars
      ∷ []

  abbrev find_definition :
      String → List (IndicatorDefinition Float) → Option (IndicatorDefinition Float)
  find_definition key [] = none
  find_definition key (d ∷ ds) = if str_eq key d.key then some d else find_definition key ds

  -- `INDICATOR_CATALOG.get`. The keys are distinct, so the last definition of a key is the first.
  unfoldable pub indicator_catalog : String → Option (IndicatorDefinition Float)
  unfolding indicator_definitions
  indicator_catalog key = find_definition key indicator_definitions

  -- `sum(int(values[name]) for name in …)`; `none` is a KeyError.
  unfoldable pub sum_periods : List String → Dict (Number Float) → Option ℕ
  sum_periods [] values = some 0
  sum_periods (name ∷ names) values = do
    period ← lookup name values
    rest ← sum_periods names values
    some (truncate period + rest)

  unfoldable pub screen_look_back_bars : IndicatorDefinition Float → Dict (Number Float) → Option ℕ
  unfolding sum_periods with_defaults
  screen_look_back_bars definition given = do
    let values = with_defaults definition.parameters given
    period_sum ← sum_periods definition.look_back.parameter_names values
    some (definition.look_back.factor * period_sum + definition.look_back.extra_bars)
