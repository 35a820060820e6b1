-- ===== src/ForwardTests.antt =====
-- The forward tests: the rows of the tables `forward_test`, `forward_test_interruption` and
-- `forward_test_universe_member` (backend/src/atrade/forward_test/forward_test_store.py).
pub mod Store
pub mod Insert
pub mod Child
pub mod Worker
pub mod Rows
pub mod Starts
pub mod Children
pub mod Compares
pub mod Ends
pub mod Passes
pub mod Sound
pub mod Stops
pub mod Others
pub mod OnePass
pub mod Requests
use Prim.Native.String.{String}
use atrade.Prelude.{ℕ, Bool, true, false, List, Option}
use atrade.Prelude.Int.{ℤ}
use atrade.Bar.{BarPeriod}
use atrade.Ledger.{Instrument}
use atrade.Ledger.Table.{Table}

pub data DesiredState : Type 0 where
  running stopped : DesiredState

pub data ForwardTestStatus : Type 0 where
  starting running waiting_for_gateway stopping stopped stop_failed failed : ForwardTestStatus

pub data InterruptionReason : Type 0 where
  crash gateway worker_restart : InterruptionReason

pub data UniverseKind : Type 0 where
  single rule list : UniverseKind

-- The text of `describe_crash`, `PAPER_CHECK_FAILED_MESSAGE`, and the texts of the child process.
pub data ForwardTestError : Type 0 where
  crash_described : ℤ → ForwardTestError
  paper_check_failed : ForwardTestError
  of_child : String → ForwardTestError

pub record ForwardTestRequest : Type 0 where
  pub strategy_version_id : ℕ
  pub instrument : Option Instrument
  pub bar_period : BarPeriod
  pub allocated_capital_usd : ℤ
  pub end_time_utc : Option ℕ
  pub universe_kind : UniverseKind
  pub universe_top_n : Option ℕ
  pub quarter_start_utc : Option ℕ
  pub members : List Instrument

-- `instrument` holds the columns `symbol`, `exchange` and `currency`.
pub record ForwardTestRow : Type 0 where
  pub id : ℕ
  pub strategy_version_id : ℕ
  pub instrument : Option Instrument
  pub bar_period : BarPeriod
  pub desired_state : DesiredState
  pub status : ForwardTestStatus
  pub client_id : Option ℕ
  pub start_balance_usd : Option ℤ
  pub error_message : Option ForwardTestError
  pub created_at_utc : ℕ
  pub stopped_at_utc : Option ℕ
  pub end_time_utc : Option ℕ
  pub crash_count : ℕ
  pub allocated_capital_usd : Option ℤ
  pub universe_kind : UniverseKind
  pub universe_top_n : Option ℕ

pub record ForwardTestInterruption : Type 0 where
  pub forward_test_id : ℕ
  pub reason : InterruptionReason
  pub started_at_utc : ℕ
  pub ended_at_utc : Option ℕ

pub record ForwardTestMember : Type 0 where
  pub forward_test_id : ℕ
  pub quarter_start_utc : ℕ
  pub instrument : Instrument

-- `rows` are those of `forward_test`, in the order of their ids.
pub record Tables : Type 0 where
  pub rows : List ForwardTestRow
  pub next_id : ℕ
  pub interruptions : List ForwardTestInterruption
  pub members : List ForwardTestMember
  pub ledger : Table

pub data StartResult : Type 0 where
  started : Tables → ForwardTestRow → StartResult
  capital_too_large : (unallocated_usd : ℤ) → StartResult
  no_free_client_id : StartResult

-- `status IN ('starting', 'running', 'waiting_for_gateway')`
abbrev pub is_active : ForwardTestStatus → Bool
is_active ForwardTestStatus.starting = true
is_active ForwardTestStatus.running = true
is_active ForwardTestStatus.waiting_for_gateway = true
is_active ForwardTestStatus.stopping = false
is_active ForwardTestStatus.stopped = false
is_active ForwardTestStatus.stop_failed = false
is_active ForwardTestStatus.failed = false

abbrev pub is_running_status : ForwardTestStatus → Bool
is_running_status ForwardTestStatus.starting = false
is_running_status ForwardTestStatus.running = true
is_running_status ForwardTestStatus.waiting_for_gateway = false
is_running_status ForwardTestStatus.stopping = false
is_running_status ForwardTestStatus.stopped = false
is_running_status ForwardTestStatus.stop_failed = false
is_running_status ForwardTestStatus.failed = false

abbrev pub is_waiting_status : ForwardTestStatus → Bool
is_waiting_status ForwardTestStatus.starting = false
is_waiting_status ForwardTestStatus.running = false
is_waiting_status ForwardTestStatus.waiting_for_gateway = true
is_waiting_status ForwardTestStatus.stopping = false
is_waiting_status ForwardTestStatus.stopped = false
is_waiting_status ForwardTestStatus.stop_failed = false
is_waiting_status ForwardTestStatus.failed = false

-- `status <> 'stopped' AND NOT (status = 'failed' AND client_id IS NULL)`, of a row with a client ID
-- and of one without.
abbrev pub is_to_compare : ForwardTestStatus → Bool → Bool
is_to_compare ForwardTestStatus.starting held = true
is_to_compare ForwardTestStatus.running held = true
is_to_compare ForwardTestStatus.waiting_for_gateway held = true
is_to_compare ForwardTestStatus.stopping held = true
is_to_compare ForwardTestStatus.stopped held = false
is_to_compare ForwardTestStatus.stop_failed held = true
is_to_compare ForwardTestStatus.failed held = held
