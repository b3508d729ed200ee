-- ===== src/Oracle/Manager/Keeps.antt =====
-- What the retry loop and the requests of oracle/src/core/trigger-manager.ts keep, given that one
-- attempt keeps it.
use agroasys_web3layer.Prelude.{ℕ, zero, suc, ◌+◌, String, not, ◌&&◌, leb, ltb}
use agroasys_web3layer.Exec.Keeps.{
  Keeps, Keeps-bind, Keeps-catch, Keeps-if, Keeps-pure, Keeps-throw,
}
use agroasys_web3layer.Oracle.Types.{
  Trigger, TriggerStatus, TriggerRequest, TriggerResponse, terminal_failure,
  exhausted_needs_redrive,
}
use agroasys_web3layer.Oracle.Errors.{
  JsError, OracleError, is_terminal, classify_error, determine_next_status,
}
use agroasys_web3layer.Oracle.Services.{Environment, World, Effect}
use agroasys_web3layer.Oracle.Services.Keeps.{
  Closed, tick-Keeps, sleep-Keeps, notify-Keeps, generate_request_id-Keeps, create_trigger-Keeps,
  update_trigger-Keeps,
}
use agroasys_web3layer.Oracle.Manager.{
  Config, attempt_once, notify_terminal_status, after_failure, on_failure, retry_loop,
  execute_with_retry, create_new_trigger,
}

module _ {P : World → Type 0} (c : Closed P) (env : Environment) (config : Config) where
  notify_terminal_status-Keeps :
      (t : Trigger) (a : String) (s : TriggerStatus) (text : String) (n : ℕ)
      → Keeps P (notify_terminal_status env config t a s text n)
  unfolding notify_terminal_status
  notify_terminal_status-Keeps t a s text n =
      Keeps-if config.has_notifier _ _ (notify-Keeps c.quiet _) (Keeps-pure tt)

  after_failure-Keeps :
      (t : Trigger) (a : String) (n : ℕ) (error : JsError) (e : OracleError)
      (retry : Effect TriggerResponse) (s : TriggerStatus)
      → Keeps P retry
      → Keeps P (after_failure env config t a n error e retry s)
  unfolding after_failure
  after_failure-Keeps t a n error e retry terminal_failure k =
      Keeps-bind _ _ (notify_terminal_status-Keeps t a _ _ n) (λ _. Keeps-pure _)
  after_failure-Keeps t a n error e retry exhausted_needs_redrive k =
      Keeps-bind _ _ (notify_terminal_status-Keeps t a _ _ n) (λ _. Keeps-pure _)
  after_failure-Keeps t a n error e retry _ k =
      Keeps-if (ltb n config.max_attempts && not (is_terminal e)) _ _
        (Keeps-bind _ _ (tick-Keeps c.quiet) (λ m. Keeps-bind _ _ (sleep-Keeps c.quiet _) (λ _. k)))
        (Keeps-throw error)

  pub on_failure-Keeps :
      (t : Trigger) (a : String) (n : ℕ) (retry : Effect TriggerResponse) (error : JsError)
      → Keeps P retry
      → Keeps P (on_failure env config t a n retry error)
  unfolding on_failure
  on_failure-Keeps t a n retry error k =
      let e = classify_error env.to_lower_case error in
      Keeps-bind _ _ (update_trigger-Keeps c env t.idempotency_key _) (λ _.
        after_failure-Keeps t a n error e retry (determine_next_status e n config.max_attempts) k)

  pub create_new_trigger-Keeps :
      (r : TriggerRequest) (a : String) → Keeps P (create_new_trigger env config r a)
  unfolding create_new_trigger
  create_new_trigger-Keeps r a =
      Keeps-bind _ _ (generate_request_id-Keeps c.quiet env) (λ id. create_trigger-Keeps c env _)

  module _
      (attempt : (t : Trigger) (a : String) (n : ℕ) → Keeps P (attempt_once env config t a n)) where
    retry_loop-Keeps :
        (fuel n : ℕ) (t : Trigger) (a : String) → Keeps P (retry_loop env config fuel n t a)
    unfolding retry_loop
    retry_loop-Keeps zero n t a = Keeps-throw _
    retry_loop-Keeps (suc fuel) n t a =
        Keeps-if (leb n config.max_attempts) _ _
          (Keeps-catch _ _ (attempt t a n)
            (λ e. on_failure-Keeps t a n _ e (retry_loop-Keeps fuel (n + 1) t a)))
          (Keeps-throw _)

    pub execute_with_retry-Keeps :
        (t : Trigger) (a : String) → Keeps P (execute_with_retry env config t a)
    unfolding execute_with_retry
    execute_with_retry-Keeps t a = retry_loop-Keeps config.max_attempts 1 t a
