-- ===== src/Backtests/Rows.antt =====
-- The row that a request gives and the request that a row gives
-- (backend/src/atrade/backtest/backtest_store.py, and `find_split_time` of backtest_metrics.py).
use Prim.Native.String.{String}
use atrade.Prelude.{
  ℕ, ◌+◌, ◌-◌, ◌*◌, ◌/◌, ◌%◌, ◌==◌, ltb, Bool, Option, none, some, if◌then◌else◌, ◌&&◌, ◌||◌, ◌>>=◌,
}
use mathlib.Core.Option
use atrade.Bar.{TimeRange}
use atrade.Ledger.{Instrument}
use atrade.Backtests.{
  BacktestStatus, BacktestUniverseKind, UniverseScreen, UniverseRebalancePeriod, single,
  multi_instrument, BacktestUniverse, BacktestRequest, BacktestMetrics, MetricColumns, BacktestRow,
}

-- `timedelta / int`: to the nearest microsecond, a half to the even one.
unfoldable pub divide_half_even : ℕ → ℕ → ℕ
divide_half_even n d =
    let q = n / d in
    let double = 2 * (n % d) in if ltb d double || (double == d && q % 2 == 1) then q + 1 else q

-- The routes take a share from 0 to 100, and a range whose start is before its end.
unfoldable pub find_split_time : TimeRange → ℕ → Option ℕ
unfolding divide_half_even
find_split_time time_range out_of_sample_share =
    if out_of_sample_share == 0
    then none
    else some (
        time_range.start_utc
        + divide_half_even
            ((time_range.end_utc - time_range.start_utc) * (100 - out_of_sample_share)) 100)

abbrev pub no_metrics : MetricColumns
no_metrics = record {
  final_equity_usd = none;
  total_return_percent = none;
  max_drawdown_percent = none;
  trade_count = none;
  cagr_percent = none;
  annual_volatility_percent = none;
  sharpe_ratio = none;
  sortino_ratio = none;
  calmar_ratio = none;
  profit_factor = none;
  average_win_usd = none;
  average_win_percent = none;
  average_loss_usd = none;
  exposure_percent = none;
  turnover_per_year = none;
  win_rate_percent = none;
}

-- `**asdict(result.metrics)`
unfoldable pub metrics_columns : BacktestMetrics → MetricColumns
metrics_columns m = record {
  final_equity_usd = some m.final_equity_usd;
  total_return_percent = some m.total_return_percent;
  max_drawdown_percent = some m.max_drawdown_percent;
  trade_count = some m.trade_count;
  cagr_percent = m.cagr_percent;
  annual_volatility_percent = m.annual_volatility_percent;
  sharpe_ratio = m.sharpe_ratio;
  sortino_ratio = m.sortino_ratio;
  calmar_ratio = m.calmar_ratio;
  profit_factor = m.profit_factor;
  average_win_usd = m.average_win_usd;
  average_win_percent = m.average_win_percent;
  average_loss_usd = m.average_loss_usd;
  exposure_percent = m.exposure_percent;
  turnover_per_year = m.turnover_per_year;
  win_rate_percent = m.win_rate_percent;
}

-- `read_metrics` of the columns of a row.
unfoldable pub read_metrics : MetricColumns → Option BacktestMetrics
read_metrics row = row.final_equity_usd >>= (λ final_equity_usd.
    row.total_return_percent >>= (λ total_return_percent.
      row.max_drawdown_percent >>= (λ max_drawdown_percent. row.trade_count >>= (λ trade_count.
        some record {
          final_equity_usd = final_equity_usd;
          total_return_percent = total_return_percent;
          max_drawdown_percent = max_drawdown_percent;
          trade_count = trade_count;
          cagr_percent = row.cagr_percent;
          annual_volatility_percent = row.annual_volatility_percent;
          sharpe_ratio = row.sharpe_ratio;
          sortino_ratio = row.sortino_ratio;
          calmar_ratio = row.calmar_ratio;
          profit_factor = row.profit_factor;
          average_win_usd = row.average_win_usd;
          average_win_percent = row.average_win_percent;
          average_loss_usd = row.average_loss_usd;
          exposure_percent = row.exposure_percent;
          turnover_per_year = row.turnover_per_year;
          win_rate_percent = row.win_rate_percent;
        }))))

-- What the columns of a universe have without one.
abbrev pub of_universe :
    {B : Type 0} → (BacktestUniverse → Option B) → Option BacktestUniverse → Option B
of_universe f none = none
of_universe f (some u) = f u

-- The arguments of `insert_backtest`.
pub record NewBacktest (V : Type 0) : Type 0 where
  pub request : BacktestRequest V
  pub bar_range : TimeRange
  pub created_at_utc : ℕ
  pub conversation_id : Option ℕ
  pub sweep_id : Option ℕ
  -- What `has_pending_split_check` reads of the bar tables.
  pub has_split_check_pending : Bool

abbrev pub kind_of : Option BacktestUniverse → BacktestUniverseKind
kind_of none = single
kind_of (some u) = multi_instrument u.kind

-- `none`: the request has no single instrument, so `single_instrument` raises a ValueError.
abbrev pub currency_of : Option Instrument → Option BacktestUniverse → Option String
currency_of instrument (some u) = some u.currency
currency_of instrument none = Option.map (λ (i : Instrument). i.currency) instrument

-- The universe of the columns of a row.
abbrev pub universe_of :
    BacktestUniverseKind
    → Option ℕ
    → Option UniverseScreen
    → Option UniverseRebalancePeriod
    → String
    → Option BacktestUniverse
universe_of single top_n screen rebalance_period currency = none
universe_of (multi_instrument kind) top_n screen rebalance_period currency = some record {
  kind = kind;
  currency = currency;
  top_n = top_n;
  screen = screen;
  rebalance_period = rebalance_period;
}

module _ {V : Type 0} where
  abbrev pub universe_kind : BacktestRequest V → BacktestUniverseKind
  universe_kind request = kind_of request.universe

  abbrev pub currency : BacktestRequest V → Option String
  currency request = currency_of request.instrument request.universe

  -- The row that `insert_backtest` adds, in the currency of the request.
  unfoldable pub new_row : ℕ → NewBacktest V → String → BacktestRow V
  unfolding find_split_time
  new_row id new currency_text =
      let request = new.request in
      record {
        id = id;
        strategy_version_id = request.strategy_version_id;
        symbol = Option.map (λ (i : Instrument). i.symbol) request.instrument;
        exchange = Option.map (λ (i : Instrument). i.exchange) request.instrument;
        currency = some currency_text;
        bar_period = request.bar_period;
        start_utc = request.time_range.start_utc;
        end_utc = request.time_range.end_utc;
        paper_capital_usd = request.paper_capital_usd;
        status = BacktestStatus.queued;
        error_message = none;
        created_at_utc = new.created_at_utc;
        started_at_utc = none;
        ended_at_utc = none;
        metric_columns = no_metrics;
        conversation_id = new.conversation_id;
        out_of_sample_share = request.out_of_sample_share;
        split_time_utc = find_split_time new.bar_range request.out_of_sample_share;
        source_order = request.source_order;
        bar_count_by_source = none;
        universe_kind = universe_kind request;
        universe_top_n = of_universe (λ u. u.top_n) request.universe;
        sweep_id = new.sweep_id;
        parameters = request.parameters;
        universe_screen = of_universe (λ u. u.screen) request.universe;
        universe_rebalance_period = of_universe (λ u. u.rebalance_period) request.universe;
        has_split_check_pending = new.has_split_check_pending;
        fill_warning = none;
      }

  unfoldable pub read_row_instrument : BacktestRow V → Option Instrument
  read_row_instrument row = row.symbol >>= (λ symbol. row.exchange >>= (λ exchange.
      Option.map (λ c. record { symbol = symbol; exchange = exchange; currency = c }) row.currency))

  unfoldable pub read_universe : BacktestRow V → Option BacktestUniverse
  read_universe row =
      row.currency
      >>= universe_of row.universe_kind row.universe_top_n row.universe_screen
          row.universe_rebalance_period

  unfoldable pub read_request : BacktestRow V → BacktestRequest V
  unfolding read_row_instrument read_universe
  read_request row = record {
    strategy_version_id = row.strategy_version_id;
    instrument = read_row_instrument row;
    bar_period = row.bar_period;
    time_range = record { start_utc = row.start_utc; end_utc = row.end_utc };
    paper_capital_usd = row.paper_capital_usd;
    out_of_sample_share = row.out_of_sample_share;
    source_order = row.source_order;
    universe = read_universe row;
    parameters = row.parameters;
  }
