-- ===== src/Oracle/Worker/Keeps.antt =====
-- What a poll of oracle/src/worker/confirmation-worker.ts keeps.
use agroasys_web3layer.Prelude.{ℕ, Bool, true, false, Option, none, some, List, [], ◌∷◌, str_eq}
use agroasys_web3layer.Exec.{ok, pure, catch}
use agroasys_web3layer.Exec.Keeps.{Keeps, Keeps-bind, Keeps-catch, Keeps-if, Keeps-pure}
use agroasys_web3layer.Oracle.Types.{Trigger, submitted}
use agroasys_web3layer.Oracle.Table.{rows_by_status}
use agroasys_web3layer.Oracle.Services.{Environment, World, Effect}
use agroasys_web3layer.Oracle.Services.Keeps.{
  Closed, tick-Keeps, notify-Keeps, date_now-Keeps, query-Keeps, update_trigger-Keeps,
  get_trade-Keeps,
}
use agroasys_web3layer.Oracle.Worker.{
  WorkerConfig, Watch, IndexerEvent, in_world, is_older, submitted_time, tx_hash_of,
  hard_timeout_ms, should_run_on_chain_check, is_trade_state_advanced, store_verified,
  verify_on_chain, try_on_chain_fallback, notify_timeout, time_out, find_confirmation_event,
  on_event, await_event, batch_size, after_fallback, check_confirmation, check_all, get_submitted,
  poll_confirmations,
}

module _ {P : World → Type 0} (c : Closed P) (env : Environment) (config : WorkerConfig) where
  abbrev Inside : Watch → Type 0
  Inside s = P s.world

  in_world-Keeps : {A : Type 0} (m : Effect A) → Keeps P m → Keeps Inside (in_world m)
  in_world-Keeps m k = record { at = λ s p. k.at s.world p }

  store_verified-Keeps : (t : Trigger) → Keeps P (store_verified env config t)
  unfolding store_verified
  store_verified-Keeps t = Keeps-bind _ _ (date_now-Keeps c.quiet env) (λ a.
      Keeps-bind _ _ (date_now-Keeps c.quiet env)
        (λ b. Keeps-bind _ _ (update_trigger-Keeps c env _ _) (λ _. Keeps-pure _)))

  verify_on_chain-Keeps : (t : Trigger) → Keeps P (verify_on_chain env config t)
  unfolding verify_on_chain
  verify_on_chain-Keeps t = Keeps-bind _ _ (get_trade-Keeps c.quiet env t.trade_id) (λ trade.
      Keeps-if (is_trade_state_advanced t.trigger_type trade.status) _ _ (store_verified-Keeps t)
        (Keeps-pure _))

  try_on_chain_fallback-Keeps :
      (t : Trigger) (now : ℕ) → Keeps Inside (try_on_chain_fallback env config t now)
  unfolding try_on_chain_fallback
  try_on_chain_fallback-Keeps t now = record {
    at = λ s p.
        let decided = should_run_on_chain_check t.trade_id now (submitted_time t) s.checks in
        (Keeps-if decided.0 _ _
            (in_world-Keeps (catch (verify_on_chain env config t) (λ e. pure false))
              (Keeps-catch _ _ (verify_on_chain-Keeps t) (λ e. Keeps-pure _)))
            (Keeps-pure false)).at
          (record s { checks = decided.1 }) p;
  }

  time_out-Keeps : (t : Trigger) (now : ℕ) → Keeps P (time_out env config t now)
  unfolding time_out notify_timeout
  time_out-Keeps t now =
      Keeps-bind _ _ (update_trigger-Keeps c env _ _)
        (λ _. Keeps-if config.has_notifier _ _ (notify-Keeps c.quiet _) (Keeps-pure tt))

  on_event-Keeps : (t : Trigger) (o : Option IndexerEvent) → Keeps P (on_event env config t o)
  unfolding on_event
  on_event-Keeps t none = Keeps-pure _
  on_event-Keeps t (some event) = Keeps-bind _ _ (date_now-Keeps c.quiet env) (λ a.
      Keeps-bind _ _ (date_now-Keeps c.quiet env)
        (λ b. Keeps-bind _ _ (update_trigger-Keeps c env _ _) (λ _. Keeps-pure _)))

  await_event-Keeps : (t : Trigger) → Keeps P (await_event env config t)
  unfolding await_event find_confirmation_event
  await_event-Keeps t =
      Keeps-bind _ _ (Keeps-bind _ _ (tick-Keeps c.quiet) (λ n. Keeps-pure _)) (on_event-Keeps t)

  after_fallback-Keeps :
      (t : Trigger) (now : ℕ) (b : Bool) → Keeps Inside (after_fallback env config t now b)
  unfolding after_fallback
  after_fallback-Keeps t now true = Keeps-pure _
  after_fallback-Keeps t now false =
      Keeps-if (is_older now (submitted_time t) hard_timeout_ms) _ _
        (in_world-Keeps _ (time_out-Keeps t now)) (in_world-Keeps _ (await_event-Keeps t))

  check_confirmation-Keeps : (t : Trigger) → Keeps Inside (check_confirmation env config t)
  unfolding check_confirmation
  check_confirmation-Keeps t = Keeps-if (str_eq (tx_hash_of t.tx_hash) "") _ _ (Keeps-pure _) (
      Keeps-catch _ _
        (Keeps-bind _ _ (in_world-Keeps _ (date_now-Keeps c.quiet env))
          (λ now. Keeps-bind _ _ (try_on_chain_fallback-Keeps t now) (after_fallback-Keeps t now)))
        (λ e. Keeps-pure _))

  check_all-Keeps : (ts : List Trigger) → Keeps Inside (check_all env config ts)
  unfolding check_all
  check_all-Keeps [] = Keeps-pure _
  check_all-Keeps (t ∷ ts) = Keeps-bind _ _ (check_confirmation-Keeps t) (λ _. check_all-Keeps ts)

  get_submitted-Keeps : Keeps P (get_submitted env config)
  unfolding get_submitted
  get_submitted-Keeps =
      query-Keeps c env (λ now table. ok (rows_by_status submitted batch_size table.rows, table))
        (λ now table u. u)

  -- A poll keeps what the services keep.
  pub poll_confirmations-Keeps : Keeps Inside (poll_confirmations env config)
  unfolding poll_confirmations
  poll_confirmations-Keeps =
      Keeps-catch _ _ (Keeps-bind _ _ (in_world-Keeps _ get_submitted-Keeps) check_all-Keeps)
        (λ e. Keeps-pure _)
