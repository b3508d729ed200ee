-- ===== src/Oracle/Worker.antt =====
-- oracle/src/worker/confirmation-worker.ts, and `findConfirmationEvent` of
-- oracle/src/blockchain/indexer-client.ts. The timer that starts a poll, and logging, are not modelled.
pub mod Rate
pub mod Ends
pub mod Keeps
pub mod Waits
use agroasys_web3layer.Prelude.{
  ℕ, suc, ◌+◌, ◌*◌, String, Bool, true, false, not, ◌||◌, Option, none, some, List, [], ◌∷◌, ltb,
  leb, ◌==◌, str_eq, if◌then◌else◌, ◌<>◌,
}
use agroasys_web3layer.Exec.{Result, ok, err, Exec, pure, throw, lift, modify, catch, ◌>>=◌, ◌>>◌}
use agroasys_web3layer.Oracle.Types.{
  Trigger, TriggerType, TradeStatus, trade_status_code, ErrorType, release_stage_1, confirm_arrival,
  finalize_trade, unknown_type, confirmed, submitted, exhausted_needs_redrive, no_update,
}
use agroasys_web3layer.Oracle.Errors.{JsError}
use agroasys_web3layer.Oracle.Table.{rows_by_status}
use agroasys_web3layer.Oracle.Services.{
  Environment, World, Notice, Effect, tick, date_now, query, update_trigger, get_trade, notify,
}

abbrev pub minute_ms : ℕ
minute_ms = 60 * 1000

abbrev pub hard_timeout_ms : ℕ
hard_timeout_ms = 30 * minute_ms

abbrev pub on_chain_fallback_threshold_ms : ℕ
on_chain_fallback_threshold_ms = 20 * minute_ms

abbrev pub on_chain_fallback_min_interval_ms : ℕ
on_chain_fallback_min_interval_ms = 5 * minute_ms

abbrev batch_size : ℕ
batch_size = 100

pub record IndexerEvent : Type 0 where
  pub id : String
  pub trade_id : String
  pub event_name : String
  pub tx_hash : String
  pub block_number : ℕ

-- What the request to the indexer comes to: it throws, the status is no success, the body holds
-- `errors`, or it holds the transaction's newest events.
pub data IndexerReply : Type 0 where
  unreachable not_ok graphql_errors : IndexerReply
  events : List IndexerEvent → IndexerReply

pub record WorkerConfig : Type 0 where
  pub has_notifier : Bool
  pub ask_indexer : ℕ → String → IndexerReply
  -- `((now - submittedAt) / 60000).toFixed(1)`
  pub age_minutes_text : ℕ → ℕ → String

-- `lastOnChainCheckByTradeId`, the latest entry first.
abbrev pub Checks : Type 0
Checks = List (String × ℕ)

abbrev pub last_check : String → Checks → Option ℕ
last_check k [] = none
last_check k ((id, at) ∷ checks) = if str_eq id k then some at else last_check k checks

pub record Watch : Type 0 where
  pub world : World
  pub checks : Checks

abbrev pub in_world {ℓ} :
    {A : Type ℓ} → (World → Result JsError A × World) → Watch → Result JsError A × Watch
in_world m s = let (r, w) = m s.world in (r, record s { world = w })

-- `new Date(trigger.submitted_at).getTime()`
abbrev pub submitted_time : Trigger → ℕ
submitted_time t = elim t.submitted_at [ none ↦ 0 | some at ↦ at ]

-- `ageMs > limit` and `ageMs < limit`, where `ageMs = now - submittedAt` may be negative.
abbrev pub is_older : ℕ → ℕ → ℕ → Bool
is_older now since limit = ltb (since + limit) now

abbrev pub is_younger : ℕ → ℕ → ℕ → Bool
is_younger now since limit = ltb now (since + limit)

abbrev pub checked_recently : Option ℕ → ℕ → Bool
checked_recently none now = false
checked_recently (some at) now = is_younger now at on_chain_fallback_min_interval_ms

unfoldable pub should_run_on_chain_check : String → ℕ → ℕ → Checks → Bool × Checks
should_run_on_chain_check trade_id now since checks =
    if is_younger now since on_chain_fallback_threshold_ms
    then (false, checks)
    else if checked_recently (last_check trade_id checks) now
    then (false, checks)
    else (true, (trade_id, now) ∷ checks)

abbrev pub is_trade_state_advanced : TriggerType → TradeStatus → Bool
is_trade_state_advanced release_stage_1 s = not (trade_status_code s == 0)
is_trade_state_advanced confirm_arrival s = not (trade_status_code s == 1)
is_trade_state_advanced finalize_trade s = not (trade_status_code s == 2)
is_trade_state_advanced (unknown_type name) s = false

unfoldable pub find_event : String → IndexerReply → Option IndexerEvent
find_event trade_id unreachable = none
find_event trade_id not_ok = none
find_event trade_id graphql_errors = none
find_event trade_id (events []) = none
find_event trade_id (events (e ∷ es)) = if not (str_eq e.trade_id trade_id) then none else some e

abbrev pub tx_hash_of : Option String → String
tx_hash_of none = ""
tx_hash_of (some hash) = hash

module _ (env : Environment) (config : WorkerConfig) where
  pub find_confirmation_event : String → String → Effect (Option IndexerEvent)
  find_confirmation_event tx_hash trade_id = do
    n ← tick
    pure (find_event trade_id (config.ask_indexer n tx_hash))

  store_verified : Trigger → Effect Bool
  store_verified t = do
    verified_at ← date_now env
    confirmed_at ← date_now env
    update_trigger env t.idempotency_key (record no_update {
      status = some confirmed;
      on_chain_verified = some true;
      on_chain_verified_at = some verified_at;
      confirmed_at = some confirmed_at;
    })
    pure true

  -- The `try` of `tryOnChainFallback`.
  pub verify_on_chain : Trigger → Effect Bool
  unfolding store_verified
  verify_on_chain t = do
    trade ← get_trade env t.trade_id
    if is_trade_state_advanced t.trigger_type trade.status then store_verified t else pure false

  pub try_on_chain_fallback : Trigger → ℕ → Exec Watch JsError Bool
  try_on_chain_fallback t now s =
      let (run, checks) = should_run_on_chain_check t.trade_id now (submitted_time t) s.checks in
      (if run then in_world (catch (verify_on_chain t) (λ e. pure false)) else pure false)
        (record s { checks = checks })

  timeout_notice : Trigger → String → Notice
  timeout_notice t age = record {
    event_type = "ORACLE_CONFIRMATION_TIMEOUT";
    dedup_key = "oracle:confirmation-timeout:" <> t.action_key;
    message =
        "Confirmation timeout exceeded hard limit and trigger moved to EXHAUSTED_NEEDS_REDRIVE.";
    trade_id = t.trade_id;
    action_key = t.action_key;
    request_id = t.request_id;
    tx_hash = t.tx_hash;
    trigger_type = t.trigger_type;
    attempt = none;
    age_minutes = some age;
    idempotency_key = some t.idempotency_key;
  }

  pub notify_timeout : Trigger → String → Effect (Unit {0})
  unfolding timeout_notice
  notify_timeout t age = if config.has_notifier then notify (timeout_notice t age) else pure tt

  -- The branch of the hard timeout.
  pub time_out : Trigger → ℕ → Effect (Unit {0})
  unfolding notify_timeout
  time_out t now = do
    let age = config.age_minutes_text now (submitted_time t)
    update_trigger env t.idempotency_key (record no_update {
      status = some exhausted_needs_redrive;
      last_error = some (
          "Confirmation timeout after " <> age <> " minutes. Transaction may have failed or "
          <> "indexer is lagging. Re-drive will verify on-chain status.");
      error_type = some ErrorType.indexer_lag;
    })
    notify_timeout t age

  pub on_event : Trigger → Option IndexerEvent → Effect (Unit {0})
  on_event t none = pure tt
  on_event t (some event) = do
    indexer_confirmed_at ← date_now env
    confirmed_at ← date_now env
    update_trigger env t.idempotency_key (record no_update {
      status = some confirmed;
      indexer_confirmed = some true;
      indexer_confirmed_at = some indexer_confirmed_at;
      indexer_event_id = some event.id;
      confirmed_at = some confirmed_at;
    })
    pure tt

  pub await_event : Trigger → Effect (Unit {0})
  unfolding find_confirmation_event on_event
  await_event t = do
    event ← find_confirmation_event (tx_hash_of t.tx_hash) t.trade_id
    on_event t event

  -- The rest of a check, where the chain did not confirm the action.
  pub after_fallback : Trigger → ℕ → Bool → Exec Watch JsError (Unit {0})
  unfolding time_out await_event
  after_fallback t now true = pure tt
  after_fallback t now false =
      if is_older now (submitted_time t) hard_timeout_ms
      then in_world (time_out t now)
      else in_world (await_event t)

  pub check_confirmation : Trigger → Exec Watch JsError (Unit {0})
  unfolding try_on_chain_fallback after_fallback
  check_confirmation t =
      if str_eq (tx_hash_of t.tx_hash) ""
      then pure tt
      else catch
          (do
            now ← in_world (date_now env)
            on_chain ← try_on_chain_fallback t now
            after_fallback t now on_chain)
          (λ e. pure tt)

  pub check_all : List Trigger → Exec Watch JsError (Unit {0})
  unfolding check_confirmation
  check_all [] = pure tt
  check_all (t ∷ ts) = do check_confirmation t; check_all ts

  pub get_submitted : Effect (List Trigger)
  unfolding query
  get_submitted =
      query env (λ now table. ok (rows_by_status submitted batch_size table.rows, table))

  pub poll_confirmations : Exec Watch JsError (Unit {0})
  unfolding check_all get_submitted
  poll_confirmations =
      catch (do triggers ← in_world get_submitted; check_all triggers) (λ e. pure tt)
