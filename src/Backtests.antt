-- ===== src/Backtests.antt =====
-- Backtests, their queue and their parameter sweeps (backend/src/atrade/backtest/backtest_store.py,
-- backtest_runner.py, backtest_limits.py and parameter_sweep.py). This file has the data: the request
-- of a backtest, the row of the table `backtest`, and the tables that refer to it. `V` is the type of
-- the values of the parameters of a run, a `dict` of JSON values. A `datetime` is its number of
-- microseconds since the UNIX epoch, a `Decimal` its number of smallest units.
pub mod Rows
pub mod Requests
pub mod Store
pub mod Sweeps
pub mod Runner
pub mod Starts
pub mod Liveness
pub mod Lifecycle
pub mod RowStates
pub mod Steps
pub mod TableStates
pub mod WriteStates
pub mod TaskStates
pub mod Sound
pub mod Grid
pub mod GridNumbers
pub mod GridValues
pub mod Combinations
pub mod SweepRuns
pub mod SweepStart
use Prim.Native.String.{String}
use atrade.Prelude.{ℕ, ◌≡◌, Bool, true, false, ◌||◌, List, Option, none, some}
use atrade.Prelude.Int.{ℤ}
use atrade.Bar.{BarPeriod, TimeRange}
use atrade.Ledger.{Instrument}

pub data BacktestStatus : Type 0 where
  queued running finished failed timed_out cancelled : BacktestStatus

-- `status in ("queued", "running")`
abbrev pub is_open : BacktestStatus → Bool
is_open BacktestStatus.queued = true
is_open BacktestStatus.running = true
is_open BacktestStatus.finished = false
is_open BacktestStatus.failed = false
is_open BacktestStatus.timed_out = false
is_open BacktestStatus.cancelled = false

abbrev pub is_queued : BacktestStatus → Bool
is_queued BacktestStatus.queued = true
is_queued BacktestStatus.running = false
is_queued BacktestStatus.finished = false
is_queued BacktestStatus.failed = false
is_queued BacktestStatus.timed_out = false
is_queued BacktestStatus.cancelled = false

abbrev pub is_running : BacktestStatus → Bool
is_running BacktestStatus.queued = false
is_running BacktestStatus.running = true
is_running BacktestStatus.finished = false
is_running BacktestStatus.failed = false
is_running BacktestStatus.timed_out = false
is_running BacktestStatus.cancelled = false

pub data BarSource : Type 0 where
  ibkr databento : BarSource

pub data MultiInstrumentKind : Type 0 where
  rule list screen : MultiInstrumentKind

pub data BacktestUniverseKind : Type 0 where
  single : BacktestUniverseKind
  multi_instrument : MultiInstrumentKind → BacktestUniverseKind

pub data UniverseRebalancePeriod : Type 0 where
  quarter month : UniverseRebalancePeriod

-- `definition` is the text of a JSON value.
pub record UniverseScreen : Type 0 where
  pub screen_id : ℕ
  pub name : String
  pub market : String
  pub definition : String

pub record BacktestUniverse : Type 0 where
  pub kind : MultiInstrumentKind
  pub currency : String
  pub top_n : Option ℕ
  pub screen : Option UniverseScreen
  pub rebalance_period : Option UniverseRebalancePeriod

pub record UniversePeriod : Type 0 where
  pub start_utc : ℕ
  pub members : List Instrument

pub record BacktestRequest (V : Type 0) : Type 0 where
  pub strategy_version_id : ℕ
  pub instrument : Option Instrument
  pub bar_period : BarPeriod
  pub time_range : TimeRange
  pub paper_capital_usd : ℤ
  pub out_of_sample_share : ℕ
  pub source_order : Option (List BarSource)
  pub universe : Option BacktestUniverse
  pub parameters : Option V

pub record BacktestMetrics : Type 0 where
  pub final_equity_usd : ℤ
  pub total_return_percent : ℤ
  pub max_drawdown_percent : ℤ
  pub trade_count : ℕ
  pub cagr_percent : Option ℤ
  pub annual_volatility_percent : Option ℤ
  pub sharpe_ratio : Option ℤ
  pub sortino_ratio : Option ℤ
  pub calmar_ratio : Option ℤ
  pub profit_factor : Option ℤ
  pub average_win_usd : Option ℤ
  pub average_win_percent : Option ℤ
  pub average_loss_usd : Option ℤ
  pub exposure_percent : Option ℤ
  pub turnover_per_year : Option ℤ
  pub win_rate_percent : Option ℤ

pub record EquityPoint : Type 0 where
  pub time_utc : ℕ
  pub equity_usd : ℤ

pub data TradeSide : Type 0 where
  buy sell : TradeSide

pub record BacktestTrade : Type 0 where
  pub time_utc : ℕ
  pub side : TradeSide
  pub quantity_shares : ℤ
  pub price_usd : ℤ
  pub commission_usd : ℤ
  pub symbol : String
  pub exchange : String

pub record BacktestResult : Type 0 where
  pub equity_curve : List EquityPoint
  pub trades : List BacktestTrade
  pub metrics : BacktestMetrics
  pub bar_count_by_source : List (BarSource × ℕ)
  pub fill_warning : Option String

-- The texts of `error_message`: those of the runner by their kind, that of the child as it is.
pub data ErrorMessage : Type 0 where
  restart_error : ErrorMessage
  child_run_error : ErrorMessage
  child_failure : (return_code : ℤ) (error_output : String) → ErrorMessage
  run_failure : String → ErrorMessage

-- The columns of the metrics, which a row has after its result.
pub record MetricColumns : Type 0 where
  pub final_equity_usd : Option ℤ
  pub total_return_percent : Option ℤ
  pub max_drawdown_percent : Option ℤ
  pub trade_count : Option ℕ
  pub cagr_percent : Option ℤ
  pub annual_volatility_percent : Option ℤ
  pub sharpe_ratio : Option ℤ
  pub sortino_ratio : Option ℤ
  pub calmar_ratio : Option ℤ
  pub profit_factor : Option ℤ
  pub average_win_usd : Option ℤ
  pub average_win_percent : Option ℤ
  pub average_loss_usd : Option ℤ
  pub exposure_percent : Option ℤ
  pub turnover_per_year : Option ℤ
  pub win_rate_percent : Option ℤ

pub record BacktestRow (V : Type 0) : Type 0 where
  pub id : ℕ
  pub strategy_version_id : ℕ
  pub symbol : Option String
  pub exchange : Option String
  pub currency : Option String
  pub bar_period : BarPeriod
  pub start_utc : ℕ
  pub end_utc : ℕ
  pub paper_capital_usd : ℤ
  pub status : BacktestStatus
  pub error_message : Option ErrorMessage
  pub created_at_utc : ℕ
  pub started_at_utc : Option ℕ
  pub ended_at_utc : Option ℕ
  pub metric_columns : MetricColumns
  pub conversation_id : Option ℕ
  pub out_of_sample_share : ℕ
  pub split_time_utc : Option ℕ
  pub source_order : Option (List BarSource)
  pub bar_count_by_source : Option (List (BarSource × ℕ))
  pub universe_kind : BacktestUniverseKind
  pub universe_top_n : Option ℕ
  pub sweep_id : Option ℕ
  pub parameters : Option V
  pub universe_screen : Option UniverseScreen
  pub universe_rebalance_period : Option UniverseRebalancePeriod
  pub has_split_check_pending : Bool
  pub fill_warning : Option String
