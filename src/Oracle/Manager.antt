-- ===== src/Oracle/Manager.antt =====
-- oracle/src/core/trigger-manager.ts. Logging and the metrics counters are not modelled.
pub mod Keeps
pub mod Justified
pub mod Stores
pub mod Settles
use agroasys_web3layer.Prelude.{
  ℕ, zero, suc, ◌+◌, String, Bool, true, false, not, ◌&&◌, ◌||◌, Option, none, some, ltb, leb, ◌==◌,
  if◌then◌else◌, ◌<>◌, includes, decimal, str_eq,
}
use agroasys_web3layer.Exec.{Exec, pure, throw, lift, catch, ◌>>=◌, ◌>>◌}
use agroasys_web3layer.Oracle.Types.{
  Trigger, TriggerStatus, TriggerType, TriggerRequest, TriggerResponse, CreateTriggerData,
  no_update, type_name, status_name, pending, executing, submitted, confirmed, failed,
  exhausted_needs_redrive, terminal_failure, pending_approval,
}
use agroasys_web3layer.Oracle.Errors.{
  JsError, OracleError, oracle, foreign, validation_error, message, error_type, is_terminal,
  error_message, classify_error, determine_next_status,
}
use agroasys_web3layer.Oracle.Validator.{validate_trade_state, validate_trade_id}
use agroasys_web3layer.Oracle.Backoff.{
  calculate_backoff, generate_action_key, generate_idempotency_key,
}
use agroasys_web3layer.Oracle.Services.{
  Environment, World, Effect, Notice, tick, from_oracle, plain_error, or_undefined, date_now,
  generate_request_id, get_trigger_by_idempotency_key, get_latest_trigger_by_action_key,
  create_trigger, update_trigger, approve_trigger, reject_trigger, get_trade,
  execute_blockchain_action, sleep, notify,
}

-- The constructor's parameters; the notifier is there or not.
pub record Config : Type 0 where
  pub max_attempts : ℕ
  pub base_delay_ms : ℕ
  pub has_notifier : Bool
  pub manual_approval_enabled : Bool

abbrev pub max_backoff_ms : ℕ
max_backoff_ms = 30000

-- `trigger.block_number ? Number(trigger.block_number) : undefined`
abbrev pub shown_block : Option ℕ → Option ℕ
shown_block none = none
shown_block (some n) = if n == 0 then none else some n

unfoldable pub is_action_already_completed : Trigger → Bool
is_action_already_completed t = elim t.status [ confirmed ↦ true | submitted ↦ true | _ ↦ false ]

abbrev pub respond :
    Trigger → String → TriggerStatus → Option String → Option ℕ → String → TriggerResponse
respond t action_key status tx_hash block_number text = record {
  idempotency_key = t.idempotency_key;
  action_key = action_key;
  request_id = t.request_id;
  status = status;
  tx_hash = tx_hash;
  block_number = block_number;
  message = text;
}

-- `trigger.last_error || 'Trigger failed with terminal error'`
abbrev last_error_or : Option String → String → String
last_error_or none text = text
last_error_or (some e) text = if str_eq e "" then text else e

unfoldable pub handle_existing_trigger : Trigger → String → TriggerResponse
handle_existing_trigger t action_key = elim t.status [
  | confirmed ↦
      respond t action_key t.status (or_undefined t.tx_hash) (shown_block t.block_number)
        "Trigger already executed for this request (idempotent)"
  | submitted ↦
      respond t action_key t.status (or_undefined t.tx_hash) (shown_block t.block_number)
        "Trigger already executed for this request (idempotent)"
  | terminal_failure ↦
      respond t action_key t.status none none
        (last_error_or t.last_error "Trigger failed with terminal error")
  | exhausted_needs_redrive ↦
      respond t action_key t.status none none
        "Trigger exhausted retries. Use re-drive endpoint to retry with on-chain verification."
  | _ ↦ respond t action_key t.status none none "Trigger in progress"
]

unfoldable pub build_response_from_trigger : Trigger → String → TriggerResponse
build_response_from_trigger t text =
    respond t t.action_key t.status t.tx_hash (shown_block t.block_number) text

-- The `catch` of `executeTrigger`.
is_missing_trade : JsError → Bool
is_missing_trade (oracle e) =
    includes (message e) "trade not found" || includes (message e) "execution reverted"
is_missing_trade (foreign e) =
    elim e.code [ none ↦ false | some code ↦ str_eq code "CALL_EXCEPTION" ]
    || includes e.text "trade not found"
    || includes e.text "execution reverted"

-- `error?.reason || error?.message`
abbrev shown_reason : JsError → String
shown_reason (oracle e) = message e
shown_reason (foreign e) = elim e.reason [
  | none ↦ e.text
  | some reason ↦ if str_eq reason "" then e.text else reason
]

pub explain : String → JsError → JsError
unfolding is_missing_trade
explain trade_id e =
    if is_missing_trade e
    then oracle
        (validation_error ("Trade " <> trade_id <> " does not exist on-chain: " <> shown_reason e))
    else e

module _ (env : Environment) (config : Config) where
  terminal_notice : Trigger → String → TriggerStatus → String → ℕ → Notice
  terminal_notice t action_key status text attempt = record {
    event_type = elim status [
      | terminal_failure ↦ "ORACLE_TRIGGER_TERMINAL_FAILURE"
      | _ ↦ "ORACLE_TRIGGER_EXHAUSTED_NEEDS_REDRIVE"
    ];
    dedup_key = "oracle:" <> status_name status <> ":" <> action_key;
    message = text;
    trade_id = t.trade_id;
    action_key = action_key;
    request_id = t.request_id;
    tx_hash = or_undefined t.tx_hash;
    trigger_type = t.trigger_type;
    attempt = some attempt;
    age_minutes = none;
    idempotency_key = none;
  }

  pub notify_terminal_status : Trigger → String → TriggerStatus → String → ℕ → Effect (Unit {0})
  unfolding terminal_notice
  notify_terminal_status t action_key status text attempt =
      if config.has_notifier
      then notify (terminal_notice t action_key status text attempt)
      else pure tt

  -- The body of the `try` in the retry loop.
  unfoldable pub attempt_once : Trigger → String → ℕ → Effect TriggerResponse
  attempt_once t action_key attempt = do
    trade ← get_trade env t.trade_id
    now ← date_now env
    lift (from_oracle (validate_trade_state trade t.trigger_type now))
    update_trigger env t.idempotency_key
        (record no_update { status = some executing; attempt_count = some attempt })
    result ← execute_blockchain_action env t.trigger_type t.trade_id
    submitted_at ← date_now env
    update_trigger env t.idempotency_key (record no_update {
      status = some submitted;
      tx_hash = some result.tx_hash;
      block_number = some result.block_number;
      submitted_at = some submitted_at;
    })
    pure (
        respond t action_key submitted (some result.tx_hash) (some result.block_number)
          "Transaction submitted, awaiting confirmation")

  exhausted_message : String → String
  exhausted_message text =
      "Exhausted "
      <> decimal config.max_attempts
      <> " attempts: "
      <> text
      <> ". Use re-drive endpoint to retry."

  -- The rest of the `catch`, once the next status is stored; `retry` is the loop's next round.
  pub after_failure :
      Trigger
      → String
      → ℕ
      → JsError
      → OracleError
      → Effect TriggerResponse
      → TriggerStatus
      → Effect TriggerResponse
  unfolding exhausted_message
  after_failure t action_key attempt error e retry terminal_failure = do
    notify_terminal_status t action_key terminal_failure (message e) attempt
    pure (respond t action_key terminal_failure none none (message e))
  after_failure t action_key attempt error e retry exhausted_needs_redrive = do
    notify_terminal_status t action_key exhausted_needs_redrive (exhausted_message (message e))
        attempt
    pure (respond t action_key exhausted_needs_redrive none none (exhausted_message (message e)))
  after_failure t action_key attempt error e retry _ =
      if ltb attempt config.max_attempts && not (is_terminal e)
      then (do
        n ← tick
        sleep (calculate_backoff (env.random_below n) attempt config.base_delay_ms max_backoff_ms)
        retry)
      else throw error

  -- The `catch` of the retry loop.
  pub on_failure : Trigger → String → ℕ → Effect TriggerResponse → JsError → Effect TriggerResponse
  unfolding after_failure
  on_failure t action_key attempt retry error = do
    let e = classify_error env.to_lower_case error
    let next_status = determine_next_status e attempt config.max_attempts
    update_trigger env t.idempotency_key (record no_update {
      status = some next_status;
      attempt_count = some attempt;
      last_error = some (message e);
      error_type = some (error_type e);
    })
    after_failure t action_key attempt error e retry next_status

  loop_exit : String → JsError
  loop_exit action_key = plain_error (
      "Retry loop exited without terminal status for action "
      <> action_key
      <> " after "
      <> decimal config.max_attempts
      <> " attempts")

  -- The loop from `attempt` on. The fuel counts rounds; where it is used up the loop has exited.
  pub retry_loop : ℕ → ℕ → Trigger → String → Effect TriggerResponse
  unfolding loop_exit
  retry_loop zero attempt t action_key = throw (loop_exit action_key)
  retry_loop (suc fuel) attempt t action_key =
      let retry = retry_loop fuel (attempt + 1) t action_key in
      if leb attempt config.max_attempts
      then catch (attempt_once t action_key attempt) (on_failure t action_key attempt retry)
      else throw (loop_exit action_key)

  pub execute_with_retry : Trigger → String → Effect TriggerResponse
  execute_with_retry t action_key = retry_loop config.max_attempts 1 t action_key

  pub create_new_trigger : TriggerRequest → String → Effect Trigger
  create_new_trigger r action_key = do
    random_id ← generate_request_id env
    create_trigger env (record {
      action_key = action_key;
      request_id = r.request_id;
      idempotency_key = generate_idempotency_key action_key random_id;
      trade_id = r.trade_id;
      trigger_type = r.trigger_type;
      request_hash = or_undefined r.request_hash;
      status = pending;
    })
