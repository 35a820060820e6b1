-- ===== src/Backtests/Requests.antt =====
-- The request that a saved backtest keeps, and its out-of-sample time.
use Prim.Native.String.{String}
use mathlib.Core.Option
use native.Mathlib.Nat.{mul-le-mul_left}
use atrade.Prelude.{ℕ, ◌-◌, ◌*◌, ◌≤◌, ◌≡◌, refl, ◌⊎◌, arith, Option, none, some, ◌>>=◌}
use atrade.Bar.{TimeRange}
use atrade.Ledger.{Instrument}
use atrade.Backtests.{BacktestUniverse, BacktestRequest, BacktestMetrics}
use atrade.Backtests.Rows.{
  divide_half_even, find_split_time, metrics_columns, read_metrics, currency, NewBacktest, new_row,
  read_row_instrument, read_universe, read_request, of_universe, kind_of, universe_of, currency_of,
}

-- The request names an instrument or a universe, not both.
abbrev pub IsOneKind : {V : Type 0} → BacktestRequest V → Type 0
IsOneKind request = (request.universe ≡ none) ⊎ (request.instrument ≡ none)

-- The columns of an instrument give it back, when `c` is its currency.
instrument_of_columns :
    (i : Option Instrument) (u : Option BacktestUniverse) (c : String)
    → (u ≡ none) ⊎ (i ≡ none)
    → currency_of i u ≡ some c
    → (Option.map (λ (j : Instrument). j.symbol) i >>= (λ symbol.
        Option.map (λ (j : Instrument). j.exchange) i
        >>= (λ exchange. some (record { symbol = symbol; exchange = exchange; currency = c }))))
      ≡ i
instrument_of_columns none u c one h = refl
instrument_of_columns (some i) none c one h = ground arith
instrument_of_columns (some i) (some u) c one h = ground arith

universe_of_columns :
    (i : Option Instrument) (u : Option BacktestUniverse) (c : String)
    → currency_of i u ≡ some c
    → universe_of
        (kind_of u)
        (of_universe (λ u. u.top_n) u)
        (of_universe (λ u. u.screen) u)
        (of_universe (λ u. u.rebalance_period) u)
        c
      ≡ u
universe_of_columns i none c h = refl
universe_of_columns i (some u) c h = ground arith

module _ {V : Type 0} (id : ℕ) (new : NewBacktest V) (c : String) where
  read_row_instrument-new_row :
      currency new.request ≡ some c
      → IsOneKind new.request
      → read_row_instrument (new_row id new c) ≡ new.request.instrument
  unfolding read_row_instrument new_row
  read_row_instrument-new_row h one =
      instrument_of_columns new.request.instrument new.request.universe c one h

  read_universe-new_row :
      currency new.request ≡ some c → read_universe (new_row id new c) ≡ new.request.universe
  unfolding read_universe new_row
  read_universe-new_row h = universe_of_columns new.request.instrument new.request.universe c h

  -- A backtest saves its request: it reads back as it was, when it names an instrument or a universe,
  -- and the row has the currency of the request.
  pub read_request-new_row :
      currency new.request ≡ some c
      → IsOneKind new.request
      → read_request (new_row id new c) ≡ new.request
  unfolding read_request new_row
  read_request-new_row h one = rw (read_row_instrument-new_row h one, read_universe-new_row h) refl

-- The metrics of a result come back from the columns of the row.
pub read_metrics-metrics_columns : (m : BacktestMetrics) → read_metrics (metrics_columns m) ≡ some m
unfolding read_metrics metrics_columns
read_metrics-metrics_columns m = refl

divide_half_even-bound : (n m : ℕ) → n ≤ m * 100 → divide_half_even n 100 ≤ m
unfolding divide_half_even
divide_half_even-bound n m h = ground arith

part_le : (l share : ℕ) → l * (100 - share) ≤ l * 100
part_le l share = mul-le-mul_left l (omega arith)

-- The out-of-sample part starts in the range.
pub find_split_time-range :
    (r : TimeRange) (share t : ℕ)
    → r.start_utc ≤ r.end_utc
    → find_split_time r share ≡ some t
    → (r.start_utc ≤ t) × (t ≤ r.end_utc)
unfolding find_split_time
find_split_time-range r share t order h =
    ground (arith, divide_half_even-bound _ _ (part_le (r.end_utc - r.start_utc) share))
