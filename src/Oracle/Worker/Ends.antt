-- ===== src/Oracle/Worker/Ends.antt =====
-- What a check of oracle/src/worker/confirmation-worker.ts leaves of a trigger.
use agroasys_web3layer.Prelude.{
  ℕ, ◌+◌, ◌<◌, String, Bool, true, false, ◌≡◌, refl, ◌⊎◌, inl, inr, none, some, str_eq, arith,
  Bool-cases,
}
use agroasys_web3layer.Exec.{Result, ok, err, pure, modify, catch, ◌>>=◌}
use agroasys_web3layer.Exec.Triple.{
  Outcome, Triple, Triple-bind, Triple-catch, Triple-post, Triple-if, Keeps-Triple,
}
use agroasys_web3layer.Oracle.Types.{Trigger, confirmed, exhausted_needs_redrive}
use agroasys_web3layer.Oracle.Errors.{JsError}
use agroasys_web3layer.Oracle.Table.{row_by_key, is_active}
use agroasys_web3layer.Oracle.Services.{Environment, World, Effect, tick, date_now, notify}
use agroasys_web3layer.Oracle.Services.Keeps.{get_trade-Keeps}
use agroasys_web3layer.Oracle.Manager.Stores.{
  sends, IsReady, HasStored, IsReady-Quiet, update_trigger-stores,
}
use agroasys_web3layer.Oracle.Worker.{
  WorkerConfig, Watch, in_world, is_older, submitted_time, tx_hash_of, hard_timeout_ms,
  should_run_on_chain_check, is_trade_state_advanced, store_verified, verify_on_chain,
  try_on_chain_fallback, notify_timeout, time_out, after_fallback, check_confirmation,
}

abbrev Never : {S : Type 0} → S → Type 0
Never s = ⊥

in_world-Outcome :
    {A : Type 0} (Q : A → World → Type 0) (R : World → Type 0) (r : Result JsError A) (w : World)
    (s : Watch)
    → Outcome Q R r w
    → Outcome (λ a s. Q a s.world) (λ s. R s.world) r (record s { world = w })
in_world-Outcome Q R (ok a) w s h = h
in_world-Outcome Q R (err e) w s h = h

in_world-Triple :
    {A : Type 0} {P : World → Type 0} {Q : A → World → Type 0} {R : World → Type 0} (m : Effect A)
    → Triple P m Q R
    → Triple (λ s. P s.world) (in_world m) (λ a s. Q a s.world) (λ s. R s.world)
in_world-Triple {Q} {R} m t = record {
  at = λ s p. in_world-Outcome Q R (m s.world).0 (m s.world).1 s (t.at s.world p);
}

inactive-exhausted : is_active exhausted_needs_redrive ≡ true → ⊥
inactive-exhausted h = cc

module _ (env : Environment) (config : WorkerConfig) (up : (n : ℕ) → env.query_fault n ≡ none)
    (t : Trigger) (n : ℕ) where
  abbrev key : String
  key = t.idempotency_key

  -- What the on-chain fallback leaves, by its answer.
  abbrev Fallback : Bool → World → Type 0
  Fallback true w = HasStored key n confirmed w
  Fallback false w = IsReady key n w

  date_now-IsReady : Triple (IsReady key n) (date_now env) (λ _. IsReady key n) (IsReady key n)
  unfolding date_now tick pure ◌>>=◌
  date_now-IsReady = record { at = λ w p. p }

  store_verified-Outcome :
      Triple (IsReady key n) (store_verified env config t) Fallback (IsReady key n)
  unfolding store_verified pure
  store_verified-Outcome =
      Triple-bind _ _ (λ _. IsReady key n) date_now-IsReady
        (λ a.
          Triple-bind _ _ (λ _. IsReady key n) date_now-IsReady
            (λ b.
              Triple-bind _ _ (λ _. HasStored key n confirmed)
                (Triple-post (λ x w p. p) (λ w p. p.1)
                  (update_trigger-stores env up key n _ confirmed refl))
                (λ _. record { at = λ w p. p })))

  verify_on_chain-Outcome :
      Triple (IsReady key n) (verify_on_chain env config t) Fallback (IsReady key n)
  unfolding verify_on_chain pure
  verify_on_chain-Outcome =
      Triple-bind _ _ (λ _. IsReady key n)
        (Keeps-Triple (IsReady key n) _ (get_trade-Keeps (IsReady-Quiet key n) env t.trade_id))
        (λ trade.
          Triple-if (is_trade_state_advanced t.trigger_type trade.status) _ _
            (λ _. store_verified-Outcome) (λ _. record { at = λ w p. p }))

  caught-Outcome :
      Triple (IsReady key n) (catch (verify_on_chain env config t) (λ e. pure false)) Fallback Never
  unfolding pure
  caught-Outcome =
      Triple-catch (IsReady key n) _ _ verify_on_chain-Outcome (λ e. record { at = λ w p. p })

  try_on_chain_fallback-Outcome :
      (now : ℕ)
      → Triple
          (λ s. IsReady key n s.world)
          (try_on_chain_fallback env config t now)
          (λ b s. Fallback b s.world)
          Never
  unfolding try_on_chain_fallback pure
  try_on_chain_fallback-Outcome now = record {
    at = λ s p.
        let decided = should_run_on_chain_check t.trade_id now (submitted_time t) s.checks in
        elim (Bool-cases decided.0) [
          | inl run ↦ rw run (
              (in_world-Triple (catch (verify_on_chain env config t) (λ e. pure false))
                  caught-Outcome).at
                (record s { checks = decided.1 }) p)
          | inr rest ↦ rw rest p
        ];
  }

  -- The row is CONFIRMED or waits for a re-drive.
  abbrev HasEnded : World → Type 0
  HasEnded w = HasStored key n confirmed w ⊎ HasStored key n exhausted_needs_redrive w

  time_out-Outcome :
      (now : ℕ) → Triple (IsReady key n) (time_out env config t now) (λ _. HasEnded) Never
  unfolding time_out notify_timeout notify modify pure
  time_out-Outcome now =
      Triple-bind _ _ (λ _. HasStored key n exhausted_needs_redrive)
        (Triple-post (λ x w p. p) (λ w p. inactive-exhausted p.0)
          (update_trigger-stores env up key n _ exhausted_needs_redrive refl))
        (λ _.
          Triple-if config.has_notifier _ _ (λ _. record { at = λ w p. inr p })
            (λ _. record { at = λ w p. inr p }))

  module _ (now : ℕ) (old : is_older now (submitted_time t) hard_timeout_ms ≡ true) where
    after_fallback-Outcome :
        (b : Bool)
        → Triple
            (λ s. Fallback b s.world)
            (after_fallback env config t now b)
            (λ _ s. HasEnded s.world)
            Never
    unfolding after_fallback pure
    after_fallback-Outcome true = record { at = λ s p. inl p }
    after_fallback-Outcome false = rw old (in_world-Triple _ (time_out-Outcome now))

  abbrev IsOld : ℕ → Type 0
  IsOld m = is_older (env.now m) (submitted_time t) hard_timeout_ms ≡ true

  date_now-old :
      (m : ℕ)
      → IsOld m
      → Triple
          (λ s. (s.world.moment ≡ m) × IsReady key n s.world)
          (in_world (date_now env))
          (λ now s. (now ≡ env.now m) × IsReady key n s.world)
          Never
  unfolding date_now tick pure ◌>>=◌
  date_now-old m old = record { at = λ s p. (rw p.0 refl, p.1) }

  check_confirmation-Outcome :
      (m : ℕ)
      → IsOld m
      → str_eq (tx_hash_of t.tx_hash) "" ≡ false
      → Triple
          (λ s. (s.world.moment ≡ m) × IsReady key n s.world)
          (check_confirmation env config t)
          (λ _ s. HasEnded s.world)
          Never
  unfolding check_confirmation
  check_confirmation-Outcome m old submitted = rw submitted (
      Triple-catch Never _ _
        (Triple-bind _ _ _ (date_now-old m old) (λ now. record {
          at = λ s p.
              (Triple-bind _ _ (λ b s. Fallback b s.world) (try_on_chain_fallback-Outcome now)
                  (after_fallback-Outcome now (rw p.0 old))).at
                s p.1;
        }))
        (λ e. record { at = λ s p. absurd p }))

-- While the database answers, a check of a stored trigger that has a transaction hash and was submitted
-- more than 30 minutes ago returns, leaves its row CONFIRMED or EXHAUSTED_NEEDS_REDRIVE, whatever the
-- chain and the indexer answer, and sends no transaction.
pub check_confirmation-HasEnded :
    (env : Environment) (config : WorkerConfig) (t : Trigger) (s : Watch)
    → ((n : ℕ) → env.query_fault n ≡ none)
    → ((u : Trigger) × (row_by_key t.idempotency_key s.world.table.rows ≡ some u))
    → str_eq (tx_hash_of t.tx_hash) "" ≡ false
    → submitted_time t + hard_timeout_ms < env.now s.world.moment
    → let (r, s') = check_confirmation env config t s in
      (r ≡ ok tt)
      × (HasStored t.idempotency_key (sends s.world.chain_log) confirmed s'.world
          ⊎ HasStored t.idempotency_key (sends s.world.chain_log) exhausted_needs_redrive s'.world)
check_confirmation-HasEnded env config t s up row submitted old =
    let (r, s') = check_confirmation env config t s in
    returned r s' (
      (check_confirmation-Outcome env config up t (sends s.world.chain_log) s.world.moment
          (ground arith) submitted).at
        s (refl, (row, omega arith)))
  where
    returned :
        (r : Result JsError (Unit {0})) (s' : Watch)
        → Outcome (λ _ v. HasEnded env config up t (sends s.world.chain_log) v.world) Never r s'
        → (r ≡ ok tt)
          × (HasStored t.idempotency_key (sends s.world.chain_log) confirmed s'.world
              ⊎ HasStored t.idempotency_key
                  (sends s.world.chain_log)
                  exhausted_needs_redrive
                  s'.world)
    returned (ok u) s' h = (refl, h)
    returned (err e) s' h = absurd h
