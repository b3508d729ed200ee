-- ===== src/Oracle/Requests.antt =====
-- The public methods of `TriggerManager` in oracle/src/core/trigger-manager.ts: `executeTrigger`
-- with its re-drive, `resumeAfterApproval` and `rejectPendingTrigger`.
pub mod Keeps
pub mod Unsent
pub mod Answers
pub mod Redrive
use agroasys_web3layer.Prelude.{
  ◌+◌, String, Bool, true, false, not, ◌&&◌, Option, none, some, if◌then◌else◌, ◌<>◌,
}
use agroasys_web3layer.Exec.{Exec, pure, throw, lift, catch, ◌>>=◌, ◌>>◌}
use agroasys_web3layer.Oracle.Types.{
  Trigger, TriggerStatus, TriggerRequest, TriggerResponse, no_update, type_name, pending, confirmed,
  pending_approval, exhausted_needs_redrive, status_eq,
}
use agroasys_web3layer.Oracle.Errors.{JsError, OracleError, oracle, foreign, validation_error}
use agroasys_web3layer.Oracle.Validator.{validate_trade_state, validate_trade_id}
use agroasys_web3layer.Oracle.Backoff.{generate_action_key, generate_idempotency_key}
use agroasys_web3layer.Oracle.Services.{
  Environment, World, Effect, from_oracle, or_undefined, date_now, generate_request_id,
  get_trigger_by_idempotency_key, get_latest_trigger_by_action_key, create_trigger, update_trigger,
  approve_trigger, reject_trigger, get_trade,
}
use agroasys_web3layer.Oracle.Manager.{
  Config, is_action_already_completed, respond, handle_existing_trigger, shown_block,
  build_response_from_trigger, explain, execute_with_retry, create_new_trigger,
}

module _ (env : Environment) (config : Config) where
  -- The `try` of `handleRedrive`.
  redrive_attempt : Trigger → TriggerRequest → Effect TriggerResponse
  redrive_attempt exhausted r = do
    trade ← get_trade env exhausted.trade_id
    now ← date_now env
    lift (from_oracle (validate_trade_state trade exhausted.trigger_type now))
    new_request_id ← generate_request_id env
    random_id ← generate_request_id env
    new_trigger ← create_trigger env (record {
      action_key = exhausted.action_key;
      request_id = new_request_id;
      idempotency_key = generate_idempotency_key exhausted.action_key random_id;
      trade_id = exhausted.trade_id;
      trigger_type = exhausted.trigger_type;
      request_hash = or_undefined r.request_hash;
      status = pending;
    })
    execute_with_retry env config new_trigger exhausted.action_key

  -- Its `catch`: every `ValidationError` is taken to mean that the action was executed.
  pub on_redrive_error : Trigger → JsError → Effect TriggerResponse
  on_redrive_error exhausted (oracle (validation_error text)) = do
    verified_at ← date_now env
    confirmed_at ← date_now env
    update_trigger env exhausted.idempotency_key (record no_update {
      status = some confirmed;
      on_chain_verified = some true;
      on_chain_verified_at = some verified_at;
      confirmed_at = some confirmed_at;
    })
    pure (
        respond exhausted exhausted.action_key confirmed (or_undefined exhausted.tx_hash) none
          "Action already executed on-chain (verified during re-drive)")
  on_redrive_error exhausted e = throw e

  pub handle_redrive : Trigger → TriggerRequest → Effect TriggerResponse
  unfolding redrive_attempt
  handle_redrive exhausted r = catch (redrive_attempt exhausted r) (on_redrive_error exhausted)

  -- The branch of manual approval.
  pub queue_for_approval : TriggerRequest → String → Effect TriggerResponse
  queue_for_approval r action_key = do
    t ← create_new_trigger env config r action_key
    update_trigger env t.idempotency_key (record no_update { status = some pending_approval })
    pure
        (record (respond t action_key pending_approval none none
          "Trigger created and awaiting manual approval") { request_id = r.request_id })

  -- The `try` of `executeTrigger`.
  pub start_trigger : TriggerRequest → String → Effect TriggerResponse
  start_trigger r action_key = do
    trade ← get_trade env r.trade_id
    now ← date_now env
    lift (from_oracle (validate_trade_state trade r.trigger_type now))
    if config.manual_approval_enabled && not r.is_redrive
        then queue_for_approval r action_key
        else do
          t ← create_new_trigger env config r action_key
          execute_with_retry env config t action_key

  -- What follows the look-up of a request's own idempotency key.
  pub existing_or_start : Option Trigger → TriggerRequest → String → Effect TriggerResponse
  existing_or_start (some existing) r action_key =
      pure (handle_existing_trigger existing action_key)
  existing_or_start none r action_key =
      catch (start_trigger r action_key) (λ e. throw (explain r.trade_id e))

  pub look_up_and_start : TriggerRequest → String → Effect TriggerResponse
  unfolding existing_or_start
  look_up_and_start r action_key = do
    random_id ← generate_request_id env
    existing ← get_trigger_by_idempotency_key env (generate_idempotency_key action_key random_id)
    existing_or_start existing r action_key

  -- What follows the look-up of the action's latest trigger.
  pub dispatch_latest : Option Trigger → TriggerRequest → String → Effect TriggerResponse
  unfolding look_up_and_start
  dispatch_latest none r action_key = look_up_and_start r action_key
  dispatch_latest (some latest) r action_key =
      if is_action_already_completed latest
      then pure (
          respond latest action_key latest.status (or_undefined latest.tx_hash)
            (shown_block latest.block_number) "Action already completed (idempotent)")
      else if r.is_redrive && status_eq latest.status exhausted_needs_redrive
      then handle_redrive latest r
      else look_up_and_start r action_key

  pub execute_trigger : TriggerRequest → Effect TriggerResponse
  unfolding dispatch_latest
  execute_trigger r = do
    lift (from_oracle (validate_trade_id r.trade_id))
    let action_key = generate_action_key (type_name r.trigger_type) r.trade_id
    latest ← get_latest_trigger_by_action_key env action_key
    dispatch_latest latest r action_key

  already_processed : String → Option Trigger → Effect TriggerResponse
  already_processed k none = throw (oracle (validation_error ("Trigger not found: " <> k)))
  already_processed k (some existing) =
      pure (build_response_from_trigger existing "Trigger already processed")

  resume_updated : String → Option Trigger → Effect TriggerResponse
  unfolding already_processed
  resume_updated k none = do
    existing ← get_trigger_by_idempotency_key env k
    already_processed k existing
  resume_updated k (some updated) = execute_with_retry env config updated updated.action_key

  pub resume_after_approval : String → String → Effect TriggerResponse
  unfolding resume_updated
  resume_after_approval k actor = do updated ← approve_trigger env k actor; resume_updated k updated

  reject_updated : String → String → Option Trigger → Effect TriggerResponse
  unfolding already_processed
  reject_updated k actor none = do
    existing ← get_trigger_by_idempotency_key env k
    already_processed k existing
  reject_updated k actor (some updated) =
      pure (build_response_from_trigger updated ("Trigger rejected by " <> actor))

  pub reject_pending_trigger : String → String → Option String → Effect TriggerResponse
  unfolding reject_updated
  reject_pending_trigger k actor reason = do
    updated ← reject_trigger env k actor reason
    reject_updated k actor updated
