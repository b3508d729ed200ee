-- ===== src/Oracle/Requests/Redrive.antt =====
-- The re-drive of oracle/src/core/trigger-manager.ts where the chain refuses the action.
use agroasys_web3layer.Prelude.{
  ℕ, suc, ◌≤◌, String, true, ◌≡◌, refl, Option, none, some, arith, ◌∷◌,
}
use agroasys_web3layer.Exec.{Result, ok, err, pure, lift, catch, modify, ◌>>=◌}
use agroasys_web3layer.Exec.Triple.{Outcome, Triple, Triple-bind, Triple-post}
use agroasys_web3layer.Oracle.Types.{Trigger, Trade, TriggerRequest, TriggerResponse, confirmed}
use agroasys_web3layer.Oracle.Errors.{JsError, oracle, validation_error}
use agroasys_web3layer.Oracle.Validator.{validate_trade_state}
use agroasys_web3layer.Oracle.Table.{row_by_key, is_active}
use agroasys_web3layer.Oracle.Services.{
  Environment, World, existing_trade, get_trade, date_now, tick, record_observed, observed,
}
use agroasys_web3layer.Oracle.Manager.{Config}
use agroasys_web3layer.Oracle.Manager.Stores.{sends, IsReady, HasStored, update_trigger-stores}
use agroasys_web3layer.Oracle.Requests.{redrive_attempt, on_redrive_error, handle_redrive}

abbrev Never : World → Type 0
Never w = ⊥

-- The update that stores CONFIRMED meets no unique index.
inactive : is_active confirmed ≡ true → ⊥
inactive h = cc

module _ (env : Environment) (up : (n : ℕ) → env.query_fault n ≡ none) (config : Config)
    (t : Trigger) (n : ℕ) where
  abbrev IsClosed : TriggerResponse → World → Type 0
  IsClosed response w = (response.status ≡ confirmed) × HasStored t.idempotency_key n confirmed w

  date_now-IsReady :
      Triple (IsReady t.idempotency_key n) (date_now env) (λ _. IsReady t.idempotency_key n) Never
  unfolding date_now tick pure ◌>>=◌
  date_now-IsReady = record { at = λ w p. p }

  on_redrive_error-Outcome :
      (text : String)
      → Triple
          (IsReady t.idempotency_key n)
          (on_redrive_error env config t (oracle (validation_error text)))
          IsClosed
          Never
  unfolding on_redrive_error pure
  on_redrive_error-Outcome text =
      let ready = IsReady t.idempotency_key n in
      Triple-bind _ _ (λ _. ready) date_now-IsReady
        (λ verified_at.
          Triple-bind _ _ (λ _. ready) date_now-IsReady
            (λ confirmed_at.
              Triple-bind _ _ (λ _. HasStored t.idempotency_key n confirmed)
                (Triple-post (λ x w p. p) (λ w p. inactive p.0)
                  (update_trigger-stores env up t.idempotency_key n _ confirmed refl))
                (λ _. record { at = λ w p. (refl, p) })))

  handle_redrive-Outcome :
      (r : TriggerRequest) (w : World) (found : Option Trade) (trade : Trade) (text : String)
      → env.read_trade w.moment t.trade_id ≡ ok found
      → existing_trade t.trade_id found ≡ ok trade
      → validate_trade_state trade t.trigger_type (env.now (suc w.moment))
        ≡ err (validation_error text)
      → IsReady t.idempotency_key n w
      → Outcome IsClosed Never
          (handle_redrive env config t r w).0
          (handle_redrive env config t r w).1
  unfolding handle_redrive redrive_attempt catch get_trade tick date_now modify record_observed lift
      ◌>>=◌ pure
  handle_redrive-Outcome r w found trade text read there invalid ready =
      rw (read, there, invalid)
        ((on_redrive_error-Outcome text).at
          (record w {
            moment = suc (suc w.moment);
            chain_log = observed w.moment t.trade_id trade ∷ w.chain_log;
          })
          ready)

-- A re-drive of a stored trigger whose action the chain's trade does not allow at the clock's reading,
-- whatever the reason and the database answering, returns CONFIRMED, stores CONFIRMED in the
-- trigger's row, and sends no transaction.
pub handle_redrive-refused :
    (env : Environment) (config : Config) (t : Trigger) (r : TriggerRequest) (w : World)
    (found : Option Trade) (trade : Trade) (text : String)
    → ((n : ℕ) → env.query_fault n ≡ none)
    → ((u : Trigger) × (row_by_key t.idempotency_key w.table.rows ≡ some u))
    → env.read_trade w.moment t.trade_id ≡ ok found
    → existing_trade t.trade_id found ≡ ok trade
    → validate_trade_state trade t.trigger_type (env.now (suc w.moment))
      ≡ err (validation_error text)
    → let (answer, w') = handle_redrive env config t r w in
      ((response : TriggerResponse) × (answer ≡ ok response) × (response.status ≡ confirmed))
      × ((u : Trigger) × (row_by_key t.idempotency_key w'.table.rows ≡ some u)
          × (u.status ≡ confirmed))
      × (sends w'.chain_log ≤ sends w.chain_log)
handle_redrive-refused env config t r w found trade text up row read there invalid =
    let (answer, w') = handle_redrive env config t r w in
    returned answer w' (
      handle_redrive-Outcome env up config t (sends w.chain_log) r w found trade text read there
        invalid (row, omega arith))
  where
    returned :
        (answer : Result JsError TriggerResponse) (w' : World)
        → Outcome (IsClosed env up config t (sends w.chain_log)) Never answer w'
        → ((response : TriggerResponse) × (answer ≡ ok response) × (response.status ≡ confirmed))
          × ((u : Trigger) × (row_by_key t.idempotency_key w'.table.rows ≡ some u)
              × (u.status ≡ confirmed))
          × (sends w'.chain_log ≤ sends w.chain_log)
    returned (ok response) w' h = ((response, refl, h.0), h.1.0, h.1.1)
    returned (err e) w' h = absurd h
