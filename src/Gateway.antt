-- ===== src/Gateway.antt =====
-- The link of the IB Gateway connection (backend/src/atrade/ibkr/gateway_connection.py): whether
-- IB Gateway is connected to the IBKR servers, the link check, and which requests are let through
-- while the link is lost. `ib.isConnected()` is a field, and the monotonic clock is read in
-- microseconds at each operation.
pub mod Retries
use atrade.Prelude.{
  ℕ, ◌+◌, ◌*◌, min, Bool, true, false, not, ◌&&◌, ◌||◌, Option, none, some, ◌==◌, leb,
  if◌then◌else◌,
}
use atrade.Bar.{microseconds}

abbrev pub ibkr_link_check_seconds : ℕ
ibkr_link_check_seconds = 300

abbrev pub ibkr_link_check_while_lost_seconds : ℕ
ibkr_link_check_while_lost_seconds = 60

abbrev pub ibkr_link_check_timeout_seconds : ℕ
ibkr_link_check_timeout_seconds = 30

-- A number of seconds of the clock.
abbrev pub seconds : ℕ → ℕ
seconds n = n * microseconds

abbrev pub is_lost_code : ℕ → Bool
is_lost_code code = code == 1100 || code == 2110

abbrev pub is_restored_code : ℕ → Bool
is_restored_code code = code == 1101 || code == 1102

pub data GatewayStatus : Type 0 where
  connected unreachable no_ibkr_connection : GatewayStatus

pub record Connection : Type 0 where
  pub is_connected : Bool
  pub connection_number : ℕ
  pub synchronized : Bool
  pub ibkr_link_lost : Bool
  pub ibkr_link_retry_at : ℕ
  pub next_ibkr_link_check_at : ℕ

unfoldable pub mark_ibkr_link_lost : ℕ → Connection → Connection
mark_ibkr_link_lost now c =
    let retry_at = now + seconds ibkr_link_check_while_lost_seconds in
    record c {
      ibkr_link_lost = true;
      ibkr_link_retry_at = retry_at;
      next_ibkr_link_check_at = min c.next_ibkr_link_check_at retry_at;
    }

unfoldable pub mark_ibkr_link_restored : Connection → Connection
mark_ibkr_link_restored c = record c { ibkr_link_lost = false }

unfoldable pub receive_error : ℕ → ℕ → Connection → Connection
unfolding mark_ibkr_link_lost mark_ibkr_link_restored
receive_error now error_code c =
    if is_lost_code error_code
    then mark_ibkr_link_lost now c
    else if is_restored_code error_code
    then mark_ibkr_link_restored c
    else c

-- How the request of the link check ends: an API error, no connection, or an answer (also an empty
-- one) after a time.
pub data LinkAnswer : Type 0 where
  request_error connection_error : LinkAnswer
  answered : (elapsed : ℕ) → LinkAnswer

unfoldable pub check_ibkr_link : ℕ → LinkAnswer → Connection → Connection
unfolding mark_ibkr_link_lost mark_ibkr_link_restored
check_ibkr_link now request_error c = mark_ibkr_link_restored c
check_ibkr_link now connection_error c = c
check_ibkr_link now (answered elapsed) c =
    if leb (seconds ibkr_link_check_timeout_seconds) elapsed
    then mark_ibkr_link_lost now c
    else mark_ibkr_link_restored c

-- `try_to_connect`, with whether `connectAsync` succeeds. There is no connection after a failure.
unfoldable pub try_to_connect : Bool → Connection → Connection
try_to_connect false c = record c {
  is_connected = false;
  synchronized = false;
  ibkr_link_lost = false;
  next_ibkr_link_check_at = 0;
}
try_to_connect true c = record c {
  is_connected = true;
  synchronized = true;
  connection_number = c.connection_number + 1;
  ibkr_link_lost = false;
  next_ibkr_link_check_at = 0;
}

-- The next time of the link check, after a check.
abbrev pub plan_link_check : ℕ → Connection → Connection
plan_link_check now c = record c {
  next_ibkr_link_check_at =
      now
      + seconds (
          if c.ibkr_link_lost then ibkr_link_check_while_lost_seconds else ibkr_link_check_seconds);
}

-- One round of the loop of `keep_connected`, with the clock at its start and after the link check.
unfoldable pub keep_connected_round : ℕ → ℕ → Bool → LinkAnswer → Connection → Connection
unfolding try_to_connect check_ibkr_link
keep_connected_round now later succeeds answer c =
    if not c.is_connected
    then try_to_connect succeeds c
    else if c.synchronized && leb c.next_ibkr_link_check_at now
    then plan_link_check later (check_ibkr_link later answer c)
    else c

unfoldable pub read_status : Connection → GatewayStatus
read_status c =
    if not (c.synchronized && c.is_connected)
    then unreachable
    else if c.ibkr_link_lost
    then no_ibkr_connection
    else connected

-- `none` is a GatewayRequestError.
unfoldable pub require_ibkr_link : ℕ → Connection → Option Connection
require_ibkr_link now c =
    if not c.ibkr_link_lost
    then some c
    else if leb c.ibkr_link_retry_at now
    then some (record c { ibkr_link_retry_at = now + seconds ibkr_link_check_while_lost_seconds })
    else none

unfoldable pub require_connection : ℕ → Connection → Option Connection
unfolding require_ibkr_link
require_connection now c = if not c.is_connected then none else require_ibkr_link now c
