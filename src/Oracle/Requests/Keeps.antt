-- ===== src/Oracle/Requests/Keeps.antt =====
-- What each public method of oracle/src/core/trigger-manager.ts keeps, whether it returns or throws.
use agroasys_web3layer.Prelude.{ℕ, String, not, ◌&&◌, Option, none, some}
use agroasys_web3layer.Exec.Keeps.{
  Keeps, Keeps-bind, Keeps-catch, Keeps-if, Keeps-lift, Keeps-pure, Keeps-throw,
}
use agroasys_web3layer.Oracle.Types.{Trigger, TriggerRequest, status_eq, exhausted_needs_redrive}
use agroasys_web3layer.Oracle.Errors.{
  JsError, oracle, foreign, validation_error, network_error, contract_error,
}
use agroasys_web3layer.Oracle.Services.{Environment, World}
use agroasys_web3layer.Oracle.Services.Keeps.{
  Closed, date_now-Keeps, generate_request_id-Keeps, get_trigger_by_idempotency_key-Keeps,
  get_latest_trigger_by_action_key-Keeps, create_trigger-Keeps, update_trigger-Keeps,
  approve_trigger-Keeps, reject_trigger-Keeps, get_trade-Keeps,
}
use agroasys_web3layer.Oracle.Manager.{Config, attempt_once, is_action_already_completed}
use agroasys_web3layer.Oracle.Manager.Keeps.{create_new_trigger-Keeps, execute_with_retry-Keeps}
use agroasys_web3layer.Oracle.Requests.{
  redrive_attempt, on_redrive_error, handle_redrive, queue_for_approval, start_trigger,
  existing_or_start, look_up_and_start, dispatch_latest, execute_trigger, already_processed,
  resume_updated, resume_after_approval, reject_updated, reject_pending_trigger,
}

module _ {P : World → Type 0} (c : Closed P) (env : Environment) (config : Config) where
  pub queue_for_approval-Keeps :
      (r : TriggerRequest) (a : String) → Keeps P (queue_for_approval env config r a)
  unfolding queue_for_approval
  queue_for_approval-Keeps r a =
      Keeps-bind _ _ (create_new_trigger-Keeps c env config r a)
        (λ t. Keeps-bind _ _ (update_trigger-Keeps c env _ _) (λ _. Keeps-pure _))

  on_redrive_error-Keeps : (t : Trigger) (e : JsError) → Keeps P (on_redrive_error env config t e)
  unfolding on_redrive_error
  on_redrive_error-Keeps t (oracle (validation_error text)) =
      Keeps-bind _ _ (date_now-Keeps c.quiet env) (λ n.
        Keeps-bind _ _ (date_now-Keeps c.quiet env)
          (λ m. Keeps-bind _ _ (update_trigger-Keeps c env _ _) (λ _. Keeps-pure _)))
  on_redrive_error-Keeps t (oracle (network_error text)) = Keeps-throw _
  on_redrive_error-Keeps t (oracle (contract_error text terminal)) = Keeps-throw _
  on_redrive_error-Keeps t (foreign e) = Keeps-throw _

  module _
      (attempt : (t : Trigger) (a : String) (n : ℕ) → Keeps P (attempt_once env config t a n)) where
    redrive_attempt-Keeps :
        (t : Trigger) (r : TriggerRequest) → Keeps P (redrive_attempt env config t r)
    unfolding redrive_attempt
    redrive_attempt-Keeps t r = Keeps-bind _ _ (get_trade-Keeps c.quiet env t.trade_id) (λ trade.
        Keeps-bind _ _ (date_now-Keeps c.quiet env) (λ now. Keeps-bind _ _ (Keeps-lift _) (λ _.
          Keeps-bind _ _ (generate_request_id-Keeps c.quiet env) (λ id.
            Keeps-bind _ _ (generate_request_id-Keeps c.quiet env) (λ random_id.
              Keeps-bind _ _ (create_trigger-Keeps c env _)
                (λ new. execute_with_retry-Keeps c env config attempt new _))))))

    handle_redrive-Keeps :
        (t : Trigger) (r : TriggerRequest) → Keeps P (handle_redrive env config t r)
    unfolding handle_redrive
    handle_redrive-Keeps t r =
        Keeps-catch _ _ (redrive_attempt-Keeps t r) (on_redrive_error-Keeps t)

    start_trigger-Keeps : (r : TriggerRequest) (a : String) → Keeps P (start_trigger env config r a)
    unfolding start_trigger
    start_trigger-Keeps r a = Keeps-bind _ _ (get_trade-Keeps c.quiet env r.trade_id) (λ trade.
        Keeps-bind _ _ (date_now-Keeps c.quiet env) (λ now. Keeps-bind _ _ (Keeps-lift _) (λ _.
          Keeps-if (config.manual_approval_enabled && not r.is_redrive) _ _
            (queue_for_approval-Keeps r a)
            (Keeps-bind _ _ (create_new_trigger-Keeps c env config r a)
              (λ new. execute_with_retry-Keeps c env config attempt new a)))))

    existing_or_start-Keeps :
        (o : Option Trigger) (r : TriggerRequest) (a : String)
        → Keeps P (existing_or_start env config o r a)
    unfolding existing_or_start
    existing_or_start-Keeps none r a =
        Keeps-catch _ _ (start_trigger-Keeps r a) (λ e. Keeps-throw _)
    existing_or_start-Keeps (some t) r a = Keeps-pure _

    look_up_and_start-Keeps :
        (r : TriggerRequest) (a : String) → Keeps P (look_up_and_start env config r a)
    unfolding look_up_and_start
    look_up_and_start-Keeps r a = Keeps-bind _ _ (generate_request_id-Keeps c.quiet env) (λ id.
        Keeps-bind _ _ (get_trigger_by_idempotency_key-Keeps c env _)
          (λ o. existing_or_start-Keeps o r a))

    dispatch_latest-Keeps :
        (o : Option Trigger) (r : TriggerRequest) (a : String)
        → Keeps P (dispatch_latest env config o r a)
    unfolding dispatch_latest
    dispatch_latest-Keeps none r a = look_up_and_start-Keeps r a
    dispatch_latest-Keeps (some t) r a =
        Keeps-if (is_action_already_completed t) _ _ (Keeps-pure _) (
          Keeps-if (r.is_redrive && status_eq t.status exhausted_needs_redrive) _ _
            (handle_redrive-Keeps t r) (look_up_and_start-Keeps r a))

    pub execute_trigger-Keeps : (r : TriggerRequest) → Keeps P (execute_trigger env config r)
    unfolding execute_trigger
    execute_trigger-Keeps r = Keeps-bind _ _ (Keeps-lift _) (λ _.
        Keeps-bind _ _ (get_latest_trigger_by_action_key-Keeps c env _)
          (λ o. dispatch_latest-Keeps o r _))

    already_processed-Keeps :
        (k : String) (o : Option Trigger) → Keeps P (already_processed env config k o)
    unfolding already_processed
    already_processed-Keeps k none = Keeps-throw _
    already_processed-Keeps k (some t) = Keeps-pure _

    resume_updated-Keeps :
        (k : String) (o : Option Trigger) → Keeps P (resume_updated env config k o)
    unfolding resume_updated
    resume_updated-Keeps k none =
        Keeps-bind _ _ (get_trigger_by_idempotency_key-Keeps c env k) (already_processed-Keeps k)
    resume_updated-Keeps k (some t) = execute_with_retry-Keeps c env config attempt t _

    pub resume_after_approval-Keeps :
        (k actor : String) → Keeps P (resume_after_approval env config k actor)
    unfolding resume_after_approval
    resume_after_approval-Keeps k actor =
        Keeps-bind _ _ (approve_trigger-Keeps c env k actor) (resume_updated-Keeps k)

    reject_updated-Keeps :
        (k actor : String) (o : Option Trigger) → Keeps P (reject_updated env config k actor o)
    unfolding reject_updated
    reject_updated-Keeps k actor none =
        Keeps-bind _ _ (get_trigger_by_idempotency_key-Keeps c env k) (already_processed-Keeps k)
    reject_updated-Keeps k actor (some t) = Keeps-pure _

    pub reject_pending_trigger-Keeps :
        (k actor : String) (reason : Option String)
        → Keeps P (reject_pending_trigger env config k actor reason)
    unfolding reject_pending_trigger
    reject_pending_trigger-Keeps k actor reason =
        Keeps-bind _ _ (reject_trigger-Keeps c env k actor reason) (reject_updated-Keeps k actor)
