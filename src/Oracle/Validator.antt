-- ===== src/Oracle/Validator.antt =====
-- oracle/src/core/state-validator.ts: which on-chain state an action needs.
pub mod States
use Prim.Native.Char.{code}
use agroasys_web3layer.Prelude.{
  ℕ, ◌+◌, ◌-◌, ◌*◌, ◌/◌, String, Bool, true, false, ◌&&◌, Option, none, some, leb, ◌==◌,
  if◌then◌else◌, not, ◌<>◌, decimal, is_empty,
}
use agroasys_web3layer.Exec.{Result, ok, err}
use agroasys_web3layer.Oracle.Types.{
  Trade, TradeStatus, TriggerType, release_stage_1, confirm_arrival, finalize_trade, unknown_type,
  trade_status_code, trade_status_name,
}
use agroasys_web3layer.Oracle.Errors.{OracleError, validation_error}

abbrev pub hour_ms : ℕ
hour_ms = 60 * 60 * 1000

abbrev pub dispute_window_ms : ℕ
dispute_window_ms = 24 * 60 * 60 * 1000

abbrev status_is : TradeStatus → TradeStatus → Bool
status_is a b = trade_status_code a == trade_status_code b

-- `Math.ceil(a / b)`
abbrev ceil_div : ℕ → ℕ → ℕ
ceil_div a b = (a + b - 1) / b

wrong_status : String → Trade → String → OracleError
wrong_status action trade expected = validation_error (
    action
    <> ": Trade "
    <> trade.trade_id
    <> " is in status "
    <> trade_status_name trade.status
    <> ", expected "
    <> expected)

validate_release_stage_1 : Trade → Result OracleError (Unit {0})
unfolding wrong_status
validate_release_stage_1 trade =
    if not (status_is trade.status TradeStatus.locked)
    then err (wrong_status "Cannot release stage 1" trade "LOCKED")
    else ok tt

validate_confirm_arrival : Trade → Result OracleError (Unit {0})
unfolding wrong_status
validate_confirm_arrival trade =
    if not (status_is trade.status TradeStatus.in_transit)
    then err (wrong_status "Cannot confirm arrival" trade "IN_TRANSIT")
    else ok tt

window_open : ℕ → OracleError
window_open remaining_ms = validation_error (
    "Cannot finalize: Dispute window (24h) not expired. Remaining: "
    <> decimal (ceil_div remaining_ms hour_ms)
    <> "h ("
    <> decimal (ceil_div remaining_ms (60 * 1000))
    <> " minutes)")

-- `now` is the `Date.now()` of the check.
validate_dispute_window : Trade → ℕ → Option ℕ → Result OracleError (Unit {0})
unfolding window_open
validate_dispute_window trade now none =
    err (
      validation_error ("Cannot finalize: Trade " <> trade.trade_id <> " has no arrival timestamp"))
validate_dispute_window trade now (some arrival_time) =
    if leb now (arrival_time + dispute_window_ms)
    then err (window_open (arrival_time + dispute_window_ms - now))
    else ok tt

validate_finalize_trade : Trade → ℕ → Result OracleError (Unit {0})
unfolding wrong_status validate_dispute_window
validate_finalize_trade trade now =
    if not (status_is trade.status TradeStatus.arrival_confirmed)
    then err (wrong_status "Cannot finalize" trade "ARRIVAL_CONFIRMED")
    else validate_dispute_window trade now trade.arrival_timestamp

unfoldable pub validate_trade_state : Trade → TriggerType → ℕ → Result OracleError (Unit {0})
unfolding validate_release_stage_1 validate_confirm_arrival validate_finalize_trade
validate_trade_state trade release_stage_1 now = validate_release_stage_1 trade
validate_trade_state trade confirm_arrival now = validate_confirm_arrival trade
validate_trade_state trade finalize_trade now = validate_finalize_trade trade now
validate_trade_state trade (unknown_type name) now =
    err (validation_error ("Unknown trigger type: " <> name))

abbrev all_digits : String → Bool
all_digits String.[] = true
all_digits (String.◌∷◌ c s) = leb b'0' (code c) && leb (code c) b'9' && all_digits s

-- `/^\d+$/.test(tradeId)`
unfoldable pub is_trade_id : String → Bool
is_trade_id s = not (is_empty s) && all_digits s

unfoldable pub validate_trade_id : String → Result OracleError (Unit {0})
validate_trade_id trade_id =
    if not (is_trade_id trade_id)
    then err (validation_error ("Invalid trade ID format: " <> trade_id))
    else ok tt
