-- ===== src/Oracle/Services.antt =====
-- What the trigger manager and the confirmation worker work on: the table, the chain behind
-- `SDKClient` (oracle/src/blockchain/sdk-client.ts), the clock and the notifier. Every call of one
-- of these takes place at a moment of its own, and the environment answers by that moment, so that
-- anything may happen between two calls.
pub mod Keeps
use agroasys_web3layer.Prelude.{
  ℕ, suc, ◌+◌, String, Bool, true, false, ◌||◌, Option, none, some, List, [], ◌∷◌, str_eq,
  if◌then◌else◌, ◌<>◌,
}
use agroasys_web3layer.Exec.{
  Result, ok, err, Exec, pure, throw, lift, gets, modify, catch, ◌>>=◌, ◌>>◌,
}
use agroasys_web3layer.Oracle.Types.{
  Trade, Trigger, TriggerType, TriggerStatus, CreateTriggerData, UpdateTriggerData,
  BlockchainResult, release_stage_1, confirm_arrival, finalize_trade, unknown_type,
}
use agroasys_web3layer.Oracle.Errors.{
  JsError, OracleError, ForeignError, oracle, foreign, validation_error,
}
use agroasys_web3layer.Oracle.Table.{
  Table, insert_row, update_trigger_row, approve_row, reject_row, row_by_key, latest_by_action,
}

-- Each field but the last is asked at a moment.
pub record Environment : Type 0 where
  -- `sdk.getTrade`, which may throw or find nothing
  pub read_trade : ℕ → String → Result JsError (Option Trade)
  -- the transactions of `OracleSDK`
  pub send_action : ℕ → TriggerType → String → Result JsError BlockchainResult
  -- the database is out of reach
  pub query_fault : ℕ → Option JsError
  pub now : ℕ → ℕ
  -- `crypto.randomBytes(16).toString('hex')`
  pub random_id : ℕ → String
  -- `Math.floor(Math.random() * m)`
  pub random_below : ℕ → ℕ → ℕ
  pub to_lower_case : String → String

-- A trade that `SDKClient.getTrade` returned, and a transaction that was sent, with their moments.
pub data ChainCall : Type 0 where
  observed : ℕ → String → Trade → ChainCall
  sent : ℕ → TriggerType → String → ChainCall

-- What `notifier.notify` is handed.
pub record Notice : Type 0 where
  pub event_type : String
  pub dedup_key : String
  pub message : String
  pub trade_id : String
  pub action_key : String
  pub request_id : String
  pub tx_hash : Option String
  pub trigger_type : TriggerType
  pub attempt : Option ℕ
  pub age_minutes : Option String
  pub idempotency_key : Option String

-- The newest entry of each log stands first.
pub record World : Type 0 where
  pub table : Table
  pub moment : ℕ
  pub chain_log : List ChainCall
  pub notices : List Notice
  pub sleeps : List ℕ

abbrev pub Effect : Type 0 → Type 0
Effect A = Exec World JsError A

-- The next moment.
unfoldable pub tick : Effect ℕ
tick w = (ok w.moment, record w { moment = suc w.moment })

abbrev pub fail {ℓ} : {A : Type ℓ} → OracleError → Result JsError A
fail e = err (oracle e)

abbrev pub from_oracle {ℓ} : {A : Type ℓ} → Result OracleError A → Result JsError A
from_oracle (ok a) = ok a
from_oracle (err e) = err (oracle e)

-- `throw new Error(text)`
abbrev pub plain_error : String → JsError
plain_error text = foreign (record { name = "Error"; text = text; code = none; reason = none })

abbrev pub settle {ℓ} : {A : Type ℓ} → World → Result JsError (A × Table) → Result JsError A × World
settle w (ok (a, table)) = (ok a, record w { table = table })
settle w (err e) = (err e, w)

abbrev pub unless_down {ℓ} : {A : Type ℓ} → Option JsError → Result JsError A → Result JsError A
unless_down none r = r
unless_down (some e) r = err e

-- A value or `undefined`: the empty text is falsy.
abbrev pub or_undefined : Option String → Option String
or_undefined none = none
or_undefined (some text) = if str_eq text "" then none else some text

abbrev zero_address : String
zero_address = "0x0000000000000000000000000000000000000000"

not_on_chain : String → OracleError
not_on_chain trade_id = validation_error ("Trade " <> trade_id <> " does not exist on-chain")

unfoldable pub existing_trade : String → Option Trade → Result OracleError Trade
unfolding not_on_chain
existing_trade trade_id none = err (not_on_chain trade_id)
existing_trade trade_id (some trade) =
    if str_eq trade.trade_id "0" || str_eq trade.buyer zero_address
    then err (not_on_chain trade_id)
    else ok trade

abbrev pub is_unique_violation : JsError → Bool
is_unique_violation (oracle e) = false
is_unique_violation (foreign e) = elim e.code [ none ↦ false | some code ↦ str_eq code "23505" ]

abbrev pub reuse : JsError → Option Trigger → Effect Trigger
reuse e none = throw e
reuse e (some existing) = pure existing

unfoldable pub record_observed : ℕ → String → Trade → World → World
record_observed n trade_id trade w = record w {
  chain_log = observed n trade_id trade ∷ w.chain_log;
}

unfoldable pub record_sent : ℕ → TriggerType → String → World → World
record_sent n kind trade_id w = record w { chain_log = sent n kind trade_id ∷ w.chain_log }

-- `setTimeout`: the delay is noted.
unfoldable pub sleep : ℕ → Effect (Unit {0})
sleep ms = modify (λ w. record w { sleeps = ms ∷ w.sleeps })

unfoldable pub notify : Notice → Effect (Unit {0})
notify notice = modify (λ w. record w { notices = notice ∷ w.notices })

module _ (env : Environment) where
  unfoldable pub date_now : Effect ℕ
  unfolding tick ◌>>=◌
  date_now = do n ← tick; pure (env.now n)

  pub generate_request_id : Effect String
  unfolding tick ◌>>=◌
  generate_request_id = do n ← tick; pure (env.random_id n)

  -- One statement of `pool.query`, at its own `NOW()`.
  unfoldable pub query : {A : Type 0} → (ℕ → Table → Result JsError (A × Table)) → Effect A
  query statement w =
      settle (record w { moment = suc w.moment })
        (unless_down (env.query_fault w.moment) (statement (env.now w.moment) w.table))

  unfoldable pub get_trigger_by_idempotency_key : String → Effect (Option Trigger)
  unfolding query
  get_trigger_by_idempotency_key k = query (λ now table. ok (row_by_key k table.rows, table))

  unfoldable pub get_latest_trigger_by_action_key : String → Effect (Option Trigger)
  unfolding query
  get_latest_trigger_by_action_key a =
      query (λ now table. ok (latest_by_action a table.rows, table))

  pub create_trigger : CreateTriggerData → Effect Trigger
  unfolding query get_latest_trigger_by_action_key
  create_trigger d = catch (query (λ now. insert_row now d)) (λ e.
      if is_unique_violation e
      then (do existing ← get_latest_trigger_by_action_key d.action_key; reuse e existing)
      else throw e)

  unfoldable pub update_trigger : String → UpdateTriggerData → Effect (Option Trigger)
  unfolding query
  update_trigger k u = query (λ now. update_trigger_row u now k)

  unfoldable pub approve_trigger : String → String → Effect (Option Trigger)
  unfolding query
  approve_trigger k actor = query (λ now. approve_row actor now k)

  pub reject_trigger : String → String → Option String → Effect (Option Trigger)
  unfolding query
  reject_trigger k actor reason = query (λ now. reject_row actor reason now k)

  -- `SDKClient.getTrade`
  unfoldable pub get_trade : String → Effect Trade
  unfolding tick record_observed existing_trade
  get_trade trade_id = do
    n ← tick
    found ← lift (env.read_trade n trade_id)
    trade ← lift (from_oracle (existing_trade trade_id found))
    modify (record_observed n trade_id trade)
    pure trade

  unfoldable pub send : TriggerType → String → Effect BlockchainResult
  unfolding tick record_sent
  send kind trade_id = do
    n ← tick
    modify (record_sent n kind trade_id)
    lift (env.send_action n kind trade_id)

  -- `releaseFundsStage1`, `confirmArrival` and `finalizeTrade` of the client, chosen by the type.
  unfoldable pub execute_blockchain_action : TriggerType → String → Effect BlockchainResult
  unfolding send
  execute_blockchain_action (unknown_type name) trade_id =
      throw (plain_error ("Unknown trigger type: " <> name))
  execute_blockchain_action release_stage_1 trade_id = send release_stage_1 trade_id
  execute_blockchain_action confirm_arrival trade_id = send confirm_arrival trade_id
  execute_blockchain_action finalize_trade trade_id = send finalize_trade trade_id
