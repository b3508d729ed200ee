-- ===== src/Oracle/Manager/Settles.antt =====
-- How the retry loop of oracle/src/core/trigger-manager.ts ends.
use agroasys_web3layer.Prelude.{
  ℕ, zero, suc, ◌+◌, ◌≤◌, ◌<◌, String, true, false, not, ◌&&◌, ◌≡◌, refl, none, some, inl, inr,
  arith, ltb, leb, ◌⊎◌,
}
use agroasys_web3layer.Exec.{Result, ok, err, pure, modify}
use agroasys_web3layer.Exec.Keeps.{Keeps-lift}
use agroasys_web3layer.Exec.Triple.{
  Outcome, Triple, Triple-bind, Triple-post, Triple-catch, Triple-if, Keeps-Triple,
}
use agroasys_web3layer.Oracle.Types.{
  Trigger, TriggerStatus, TriggerResponse, pending, executing, submitted, confirmed, failed,
  terminal_failure, exhausted_needs_redrive, pending_approval, rejected,
}
use agroasys_web3layer.Oracle.Errors.{
  JsError, OracleError, is_terminal, classify_error, determine_next_status,
}
use agroasys_web3layer.Oracle.Table.{is_active, row_by_key}
use agroasys_web3layer.Oracle.Services.{Environment, World, Effect, tick, sleep, notify}
use agroasys_web3layer.Oracle.Services.Keeps.{date_now-Keeps, get_trade-Keeps}
use agroasys_web3layer.Oracle.Manager.{
  Config, attempt_once, notify_terminal_status, after_failure, on_failure, retry_loop,
  execute_with_retry,
}
use agroasys_web3layer.Oracle.Manager.Stores.{
  sends, IsReady, HasStored, HasStored-IsReady, IsReady-Quiet, IsReady-suc, update_trigger-stores,
  execute_blockchain_action-IsReady,
}

-- The statuses with which the loop ends.
abbrev pub IsFinal : TriggerStatus → Type 0
IsFinal s = (s ≡ submitted) ⊎ (s ≡ terminal_failure) ⊎ (s ≡ exhausted_needs_redrive)

-- The response has a final status, which the trigger's row stores.
abbrev pub IsSettled : String → ℕ → TriggerResponse → World → Type 0
IsSettled k n r w = IsFinal r.status × HasStored k n r.status w

abbrev Never : World → Type 0
Never w = ⊥

determine-inactive :
    (e : OracleError) (i max : ℕ) → is_active (determine_next_status e i max) ≡ true → ⊥
unfolding determine_next_status
determine-inactive e i max h = ground arith

determine-retries :
    (e : OracleError) (i max : ℕ)
    → determine_next_status e i max ≡ failed
    → (ltb i max && not (is_terminal e) ≡ true) × (i < max)
unfolding determine_next_status
determine-retries e i max h = ground arith

-- The statuses that `determineNextStatus` never gives.
abbrev IsOther : TriggerStatus → Type 0
IsOther failed = ⊥
IsOther terminal_failure = ⊥
IsOther exhausted_needs_redrive = ⊥
IsOther _ = Unit {0}

determine-other :
    (e : OracleError) (i max : ℕ) (s : TriggerStatus)
    → IsOther s
    → determine_next_status e i max ≡ s
    → ⊥
unfolding determine_next_status
determine-other e i max s o h = ground arith

too_far : (i fuel max : ℕ) → i + suc fuel ≡ max + 1 → leb i max ≡ false → ⊥
too_far i fuel max total past = ground arith

module _ (env : Environment) (config : Config) (t : Trigger) (a : String) where
  notify_terminal_status-HasStored :
      (n : ℕ) (s s' : TriggerStatus) (text : String) (i : ℕ)
      → Triple
          (HasStored t.idempotency_key n s)
          (notify_terminal_status env config t a s' text i)
          (λ _. HasStored t.idempotency_key n s)
          Never
  unfolding notify_terminal_status notify modify pure
  notify_terminal_status-HasStored n s s' text i =
      Triple-if config.has_notifier _ _ (λ _. record { at = λ w p. p })
        (λ _. record { at = λ w p. p })

  -- An attempt ends submitted, or throws with the row still there.
  attempt_once-Outcome :
      (up : (n : ℕ) → env.query_fault n ≡ none) (n i : ℕ)
      → Triple
          (IsReady t.idempotency_key n)
          (attempt_once env config t a i)
          (IsSettled t.idempotency_key (suc n))
          (IsReady t.idempotency_key (suc n))
  unfolding attempt_once pure
  attempt_once-Outcome up n i =
      let k = t.idempotency_key in
      let quiet = IsReady-Quiet k n in
      let later = IsReady-Quiet k (suc n) in
      Triple-bind _ _ (λ _. IsReady k n)
        (Triple-post (λ x w p. p) (IsReady-suc k n)
          (Keeps-Triple (IsReady k n) _ (get_trade-Keeps quiet env t.trade_id)))
        (λ trade.
          Triple-bind _ _ (λ _. IsReady k n)
            (Triple-post (λ x w p. p) (IsReady-suc k n)
              (Keeps-Triple (IsReady k n) _ (date_now-Keeps quiet env)))
            (λ now.
              Triple-bind _ _ (λ _. IsReady k n)
                (Triple-post (λ x w p. p) (IsReady-suc k n)
                  (Keeps-Triple (IsReady k n) _ (Keeps-lift _)))
                (λ _.
                  Triple-bind _ _ (λ _. IsReady k n)
                    (Triple-post (λ x w p. HasStored-IsReady k n executing w p)
                      (λ w p. IsReady-suc k n w p.1)
                      (update_trigger-stores env up k n _ executing refl))
                    (λ _.
                      Triple-bind _ _ (λ _. IsReady k (suc n))
                        (execute_blockchain_action-IsReady env k n t.trigger_type t.trade_id)
                        (λ result.
                          Triple-bind _ _ (λ _. IsReady k (suc n))
                            (Keeps-Triple (IsReady k (suc n)) _ (date_now-Keeps later env))
                            (λ at.
                              Triple-bind _ _ (λ _. HasStored k (suc n) submitted)
                                (Triple-post (λ x w p. p) (λ w p. p.1)
                                  (update_trigger-stores env up k (suc n) _ submitted refl))
                                (λ _. record { at = λ w p. (inl refl, p) })))))))

  module _ (up : (n : ℕ) → env.query_fault n ≡ none) (m n i : ℕ) (bound : n ≤ m) (error : JsError)
      (retry : Effect TriggerResponse)
      (again : i < config.max_attempts
        → Triple (IsReady t.idempotency_key n) retry (IsSettled t.idempotency_key m) Never) where
    after_failure-Outcome :
        (e : OracleError) (s : TriggerStatus)
        → determine_next_status e i config.max_attempts ≡ s
        → Triple
            (HasStored t.idempotency_key n s)
            (after_failure env config t a i error e retry s)
            (IsSettled t.idempotency_key m)
            Never
    unfolding after_failure pure tick sleep modify
    after_failure-Outcome e terminal_failure d =
        Triple-bind _ _ (λ _. HasStored t.idempotency_key n terminal_failure)
          (notify_terminal_status-HasStored n terminal_failure _ _ i)
          (λ _. record { at = λ w p. (inr (inl refl), (p.0, omega arith)) })
    after_failure-Outcome e exhausted_needs_redrive d =
        Triple-bind _ _ (λ _. HasStored t.idempotency_key n exhausted_needs_redrive)
          (notify_terminal_status-HasStored n exhausted_needs_redrive _ _ i)
          (λ _. record { at = λ w p. (inr (inr refl), (p.0, omega arith)) })
    after_failure-Outcome e failed d =
        let r = determine-retries e i config.max_attempts d in
        Triple-if (ltb i config.max_attempts && not (is_terminal e)) _ _
          (λ _.
            Triple-bind _ _ (λ _. IsReady t.idempotency_key n)
              (record { at = λ w p. HasStored-IsReady t.idempotency_key n failed w p })
              (λ x.
                Triple-bind _ _ (λ _. IsReady t.idempotency_key n) (record { at = λ w p. p })
                  (λ _. again r.1)))
          (λ past. absurd (cc (r.0, past)))
    after_failure-Outcome e pending d = absurd (determine-other e i _ pending tt d)
    after_failure-Outcome e executing d = absurd (determine-other e i _ executing tt d)
    after_failure-Outcome e submitted d = absurd (determine-other e i _ submitted tt d)
    after_failure-Outcome e confirmed d = absurd (determine-other e i _ confirmed tt d)
    after_failure-Outcome e pending_approval d =
        absurd (determine-other e i _ pending_approval tt d)
    after_failure-Outcome e rejected d = absurd (determine-other e i _ rejected tt d)

    on_failure-Outcome :
        Triple
          (IsReady t.idempotency_key n)
          (on_failure env config t a i retry error)
          (IsSettled t.idempotency_key m)
          Never
    unfolding on_failure
    on_failure-Outcome =
        let e = classify_error env.to_lower_case error in
        let s = determine_next_status e i config.max_attempts in
        Triple-bind _ _ (λ _. HasStored t.idempotency_key n s)
          (Triple-post (λ x w p. p) (λ w p. determine-inactive e i config.max_attempts p.0)
            (update_trigger-stores env up t.idempotency_key n _ s refl))
          (λ _. after_failure-Outcome e s refl)

  IsSettled-more :
      (n m : ℕ)
      → n ≤ m
      → (r : TriggerResponse) (w : World) → IsSettled t.idempotency_key n r w
      → IsSettled t.idempotency_key m r w
  IsSettled-more n m h r w p = (p.0, (p.1.0, omega arith))

  retry_loop-Outcome :
      (up : (n : ℕ) → env.query_fault n ≡ none) (fuel n i : ℕ)
      → i + fuel ≡ config.max_attempts + 1
      → 0 < fuel
      → Triple
          (IsReady t.idempotency_key n)
          (retry_loop env config fuel i t a)
          (IsSettled t.idempotency_key (n + fuel))
          Never
  unfolding retry_loop
  retry_loop-Outcome up zero n i total some_left = absurd (omega arith)
  retry_loop-Outcome up (suc fuel) n i total some_left =
      Triple-if (leb i config.max_attempts) _ _
        (λ _.
          Triple-catch (IsReady t.idempotency_key (suc n)) _ _
            (Triple-post (IsSettled-more (suc n) (n + suc fuel) (omega arith)) (λ w p. p)
              (attempt_once-Outcome up n i))
            (λ error. on_failure-Outcome up (n + suc fuel) (suc n) i (omega arith) error _ (λ more.
              Triple-post (IsSettled-more (suc n + fuel) (n + suc fuel) (omega arith)) (λ w p. p)
                (retry_loop-Outcome up fuel (suc n) (i + 1) (omega arith) (omega arith)))))
        (λ past. absurd (too_far i fuel config.max_attempts total past))

-- While the database answers and at least one attempt is configured, `executeWithRetry` of a stored
-- trigger never throws: it returns SUBMITTED, TERMINAL_FAILURE or EXHAUSTED_NEEDS_REDRIVE, the
-- trigger's row stores that status, and at most `max_attempts` transactions were sent.
pub execute_with_retry-IsSettled :
    (env : Environment) (config : Config) (t : Trigger) (a : String) (w : World)
    → ((n : ℕ) → env.query_fault n ≡ none)
    → 0 < config.max_attempts
    → ((u : Trigger) × (row_by_key t.idempotency_key w.table.rows ≡ some u))
    → let (r, w') = execute_with_retry env config t a w in
      (response : TriggerResponse) × (r ≡ ok response)
      × IsFinal response.status
      × ((u : Trigger) × (row_by_key t.idempotency_key w'.table.rows ≡ some u)
          × (u.status ≡ response.status))
      × (sends w'.chain_log ≤ sends w.chain_log + config.max_attempts)
unfolding execute_with_retry
execute_with_retry-IsSettled env config t a w up some_left row =
    let (r, w') = execute_with_retry env config t a w in
    returned r w' (
      (retry_loop-Outcome env config t a up config.max_attempts (sends w.chain_log) 1 (omega arith)
          some_left).at
        w (row, omega arith))
  where
    returned :
        (r : Result JsError TriggerResponse) (w' : World)
        → Outcome (IsSettled t.idempotency_key (sends w.chain_log + config.max_attempts)) Never r w'
        → (response : TriggerResponse) × (r ≡ ok response)
          × IsFinal response.status
          × ((u : Trigger) × (row_by_key t.idempotency_key w'.table.rows ≡ some u)
              × (u.status ≡ response.status))
          × (sends w'.chain_log ≤ sends w.chain_log + config.max_attempts)
    returned (ok response) w' h = (response, refl, h.0, h.1.0, h.1.1)
    returned (err e) w' h = absurd h
