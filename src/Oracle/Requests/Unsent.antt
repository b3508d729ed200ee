-- ===== src/Oracle/Requests/Unsent.antt =====
-- The requests of oracle/src/core/trigger-manager.ts and the number of transactions sent.
use agroasys_web3layer.Prelude.{ℕ, String, true, false, not, ◌&&◌, ◌≡◌, refl, Option, none, some}
use agroasys_web3layer.Exec.Keeps.{
  Keeps, Keeps-bind, Keeps-catch, Keeps-if, Keeps-then, Keeps-else, Keeps-lift, Keeps-pure,
  Keeps-throw,
}
use agroasys_web3layer.Oracle.Types.{Trigger, TriggerRequest, status_eq, exhausted_needs_redrive}
use agroasys_web3layer.Oracle.Services.{Environment, World}
use agroasys_web3layer.Oracle.Services.Keeps.{
  Closed, date_now-Keeps, generate_request_id-Keeps, get_trigger_by_idempotency_key-Keeps,
  get_latest_trigger_by_action_key-Keeps, reject_trigger-Keeps, get_trade-Keeps,
}
use agroasys_web3layer.Oracle.Manager.{Config, is_action_already_completed}
use agroasys_web3layer.Oracle.Manager.Stores.{sends}
use agroasys_web3layer.Oracle.Requests.{
  start_trigger, existing_or_start, look_up_and_start, dispatch_latest, execute_trigger,
  already_processed, reject_updated, reject_pending_trigger,
}
use agroasys_web3layer.Oracle.Requests.Keeps.{queue_for_approval-Keeps}

abbrev pub HasSent : ℕ → World → Type 0
HasSent n w = sends w.chain_log ≡ n

pub HasSent-Closed : (n : ℕ) → Closed (HasSent n)
HasSent-Closed n = record {
  quiet = record {
    ticked = λ w m p. p;
    slept = λ w l p. p;
    noticed = λ w l p. p;
    saw = λ w m id trade p. p;
  };
  stored = λ w table u p. p;
}

module _ (n : ℕ) (env : Environment) (config : Config) where
  abbrev closed : Closed (HasSent n)
  closed = HasSent-Closed n

  module _ (manual : config.manual_approval_enabled ≡ true) (r : TriggerRequest)
      (first : r.is_redrive ≡ false) where
    start_trigger-Unsent : (a : String) → Keeps (HasSent n) (start_trigger env config r a)
    unfolding start_trigger
    start_trigger-Unsent a = Keeps-bind _ _ (get_trade-Keeps closed.quiet env r.trade_id) (λ trade.
        Keeps-bind _ _ (date_now-Keeps closed.quiet env) (λ now. Keeps-bind _ _ (Keeps-lift _) (λ _.
          Keeps-then (config.manual_approval_enabled && not r.is_redrive) _ _
            (rw (manual, first) refl) (queue_for_approval-Keeps closed env config r a))))

    existing_or_start-Unsent :
        (o : Option Trigger) (a : String) → Keeps (HasSent n) (existing_or_start env config o r a)
    unfolding existing_or_start
    existing_or_start-Unsent none a = Keeps-catch _ _ (start_trigger-Unsent a) (λ e. Keeps-throw _)
    existing_or_start-Unsent (some t) a = Keeps-pure _

    look_up_and_start-Unsent : (a : String) → Keeps (HasSent n) (look_up_and_start env config r a)
    unfolding look_up_and_start
    look_up_and_start-Unsent a = Keeps-bind _ _ (generate_request_id-Keeps closed.quiet env) (λ id.
        Keeps-bind _ _ (get_trigger_by_idempotency_key-Keeps closed env _)
          (λ o. existing_or_start-Unsent o a))

    dispatch_latest-Unsent :
        (o : Option Trigger) (a : String) → Keeps (HasSent n) (dispatch_latest env config o r a)
    unfolding dispatch_latest
    dispatch_latest-Unsent none a = look_up_and_start-Unsent a
    dispatch_latest-Unsent (some t) a =
        Keeps-if (is_action_already_completed t) _ _ (Keeps-pure _) (
          Keeps-else (r.is_redrive && status_eq t.status exhausted_needs_redrive) _ _
            (rw first refl) (look_up_and_start-Unsent a))

    -- With manual approval, a first request is only queued.
    pub execute_trigger-Unsent : Keeps (HasSent n) (execute_trigger env config r)
    unfolding execute_trigger
    execute_trigger-Unsent = Keeps-bind _ _ (Keeps-lift _) (λ _.
        Keeps-bind _ _ (get_latest_trigger_by_action_key-Keeps closed env _)
          (λ o. dispatch_latest-Unsent o _))

  already_processed-Unsent :
      (k : String) (o : Option Trigger) → Keeps (HasSent n) (already_processed env config k o)
  unfolding already_processed
  already_processed-Unsent k none = Keeps-throw _
  already_processed-Unsent k (some t) = Keeps-pure _

  reject_updated-Unsent :
      (k actor : String) (o : Option Trigger)
      → Keeps (HasSent n) (reject_updated env config k actor o)
  unfolding reject_updated
  reject_updated-Unsent k actor none =
      Keeps-bind _ _ (get_trigger_by_idempotency_key-Keeps closed env k)
        (already_processed-Unsent k)
  reject_updated-Unsent k actor (some t) = Keeps-pure _

  pub reject_pending_trigger-Unsent :
      (k actor : String) (reason : Option String)
      → Keeps (HasSent n) (reject_pending_trigger env config k actor reason)
  unfolding reject_pending_trigger
  reject_pending_trigger-Unsent k actor reason =
      Keeps-bind _ _ (reject_trigger-Keeps closed env k actor reason)
        (reject_updated-Unsent k actor)
