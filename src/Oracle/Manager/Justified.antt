-- ===== src/Oracle/Manager/Justified.antt =====
-- The log of chain calls of oracle/src/core/trigger-manager.ts: observations and transactions.
use agroasys_web3layer.Prelude.{ℕ, suc, String, ◌≡◌, refl, Option, none, some, List, [], ◌∷◌}
use agroasys_web3layer.Exec.{Result, ok, err, pure, modify, ◌>>=◌, ◌>>◌}
use agroasys_web3layer.Exec.Keeps.{Keeps, Keeps-bind, Keeps-pure, Keeps-lift, Keeps-throw}
use agroasys_web3layer.Exec.Triple.{
  Triple, Triple-bind, Triple-lift, Triple-pre, Outcome-both, Triple-Keeps, Keeps-Triple,
}
use agroasys_web3layer.Oracle.Types.{
  Trigger, Trade, TriggerType, UpdateTriggerData, release_stage_1, confirm_arrival, finalize_trade,
  unknown_type,
}
use agroasys_web3layer.Oracle.Errors.{JsError, OracleError}
use agroasys_web3layer.Oracle.Validator.{validate_trade_state}
use agroasys_web3layer.Oracle.Table.{Table, update_trigger_row}
use agroasys_web3layer.Oracle.Services.{
  Environment, World, ChainCall, observed, sent, tick, settle, unless_down, from_oracle, date_now,
  query, update_trigger, get_trade, existing_trade, record_observed, record_sent, send,
  execute_blockchain_action,
}
use agroasys_web3layer.Oracle.Services.Keeps.{Closed, date_now-Keeps, update_trigger-Keeps}
use agroasys_web3layer.Oracle.Manager.{Config, attempt_once}

module _ (env : Environment) where
  -- The call before is an observation of the trade at which the action is valid, at the clock's next
  -- reading.
  abbrev pub MaySend : TriggerType → String → List ChainCall → Type 0
  MaySend kind trade_id [] = ⊥
  MaySend kind trade_id (observed n id trade ∷ log) =
      (id ≡ trade_id) × (validate_trade_state trade kind (env.now (suc n)) ≡ ok tt)
  MaySend kind trade_id (sent n k id ∷ log) = ⊥

  abbrev pub AllJustified : List ChainCall → Type 0
  AllJustified [] = Unit {0}
  AllJustified (observed n id trade ∷ log) = AllJustified log
  AllJustified (sent n kind trade_id ∷ log) = MaySend kind trade_id log × AllJustified log

  abbrev pub IsJustified : World → Type 0
  IsJustified w = AllJustified w.chain_log

  pub IsJustified-Closed : Closed IsJustified
  IsJustified-Closed = record {
    quiet = record {
      ticked = λ w n p. p;
      slept = λ w l p. p;
      noticed = λ w l p. p;
      saw = λ w n id trade p. p;
    };
    stored = λ w table u p. p;
  }

  -- `get_trade` leaves the trade that it returns at the head of the log.
  abbrev HasSeen : String → Trade → World → Type 0
  HasSeen trade_id trade w =
      (n : ℕ) × (log : List ChainCall) × (w.chain_log ≡ observed n trade_id trade ∷ log)
      × (w.moment ≡ suc n)
      × AllJustified log

  abbrev AtMoment : ℕ → World → Type 0
  AtMoment n w = (w.moment ≡ suc n) × AllJustified w.chain_log

  observe-HasSeen :
      (n : ℕ) (trade_id : String) (trade : Trade) {Q : World → Type 0}
      → ((w : World) → Q w → AtMoment n w)
      → Triple {E = JsError} Q
          (modify (record_observed n trade_id trade) >> pure trade)
          (HasSeen trade_id)
          IsJustified
  unfolding ◌>>=◌ modify record_observed
  observe-HasSeen n trade_id trade at_moment = record {
    at = λ w q. (n, w.chain_log, refl, (at_moment w q).0, (at_moment w q).1);
  }

  get_trade-HasSeen :
      (trade_id : String)
      → Triple IsJustified (get_trade env trade_id) (HasSeen trade_id) IsJustified
  unfolding get_trade tick record_observed
  get_trade-HasSeen trade_id =
      Triple-bind _ _ AtMoment (record { at = λ w p. (refl, p) })
        (λ n.
          Triple-bind _ _ (λ found w. AtMoment n w × (env.read_trade n trade_id ≡ ok found))
            (Triple-lift _ (λ w p. p.1))
            (λ found.
              Triple-bind _ _
                (λ trade w.
                  (AtMoment n w × (env.read_trade n trade_id ≡ ok found))
                  × (from_oracle (existing_trade trade_id found) ≡ ok trade))
                (Triple-lift _ (λ w p. p.0.1))
                (λ trade. observe-HasSeen n trade_id trade (λ w p. p.0.0))))

  date_now-HasSeen :
      (kind : TriggerType) (trade_id : String) (trade : Trade)
      → Triple
          (HasSeen trade_id trade)
          (date_now env)
          (λ now w.
            AllJustified w.chain_log
            × (validate_trade_state trade kind now ≡ ok tt → MaySend kind trade_id w.chain_log))
          IsJustified
  unfolding date_now tick ◌>>=◌
  date_now-HasSeen kind trade_id trade = record {
    at = λ w p. (rw p.2 p.4, λ v. rw p.2 (refl, rw p.3 at v));
  }

  query-chain_log :
      {A : Type 0} (w : World) (fault : Option JsError) (r : Result JsError (A × Table))
      → (settle w (unless_down fault r)).1.chain_log ≡ w.chain_log
  query-chain_log w none (ok a) = refl
  query-chain_log w none (err e) = refl
  query-chain_log w (some e) r = refl

  chain_log-update_trigger :
      (k : String) (u : UpdateTriggerData) (w : World)
      → (update_trigger env k u w).1.chain_log ≡ w.chain_log
  unfolding update_trigger query
  chain_log-update_trigger k u w =
      query-chain_log {A = Option Trigger} (record w { moment = suc w.moment })
        (env.query_fault w.moment) (update_trigger_row u (env.now w.moment) k w.table)

  module _ (kind : TriggerType) (trade_id : String) where
    abbrev CanSend : World → Type 0
    CanSend w = AllJustified w.chain_log × MaySend kind trade_id w.chain_log

    update_trigger-CanSend :
        (k : String) (u : UpdateTriggerData)
        → Triple CanSend (update_trigger env k u) (λ _. CanSend) IsJustified
    update_trigger-CanSend k u = record {
      at = λ w p.
          let (r, w') = update_trigger env k u w in
          Outcome-both CanSend IsJustified r w' (rw (chain_log-update_trigger k u w) p)
            (rw (chain_log-update_trigger k u w) p.0);
    }

  record_sent-IsJustified :
      (n : ℕ) (kind : TriggerType) (trade_id : String)
      → Triple {E = JsError}
          (CanSend kind trade_id)
          (modify (record_sent n kind trade_id))
          (λ _. IsJustified)
          IsJustified
  unfolding modify record_sent
  record_sent-IsJustified n kind trade_id = record { at = λ w p. (p.1, p.0) }

  send-IsJustified :
      (kind : TriggerType) (trade_id : String)
      → Triple (CanSend kind trade_id) (send env kind trade_id) (λ _. IsJustified) IsJustified
  unfolding send tick
  send-IsJustified kind trade_id =
      Triple-bind _ _ (λ n. CanSend kind trade_id) (record { at = λ w p. p })
        (λ n.
          Triple-bind _ _ (λ _. IsJustified) (record_sent-IsJustified n kind trade_id)
            (λ _. Keeps-Triple IsJustified _ (Keeps-lift _)))

  execute_blockchain_action-IsJustified :
      (kind : TriggerType) (trade_id : String)
      → Triple
          (CanSend kind trade_id)
          (execute_blockchain_action env kind trade_id)
          (λ _. IsJustified)
          IsJustified
  unfolding execute_blockchain_action
  execute_blockchain_action-IsJustified release_stage_1 trade_id = send-IsJustified _ trade_id
  execute_blockchain_action-IsJustified confirm_arrival trade_id = send-IsJustified _ trade_id
  execute_blockchain_action-IsJustified finalize_trade trade_id = send-IsJustified _ trade_id
  execute_blockchain_action-IsJustified (unknown_type name) trade_id =
      Triple-pre (λ w p. p.0) (Keeps-Triple IsJustified _ (Keeps-throw _))

  ok-of_from_oracle :
      {A : Type 0} (r : Result OracleError A) {a : A} → from_oracle r ≡ ok a → r ≡ ok a
  ok-of_from_oracle (ok a) h = cc
  ok-of_from_oracle (err e) h = cc

  -- An attempt of the retry loop sends only what it has just validated.
  pub attempt_once-IsJustified :
      (config : Config) (t : Trigger) (a : String) (n : ℕ)
      → Keeps IsJustified (attempt_once env config t a n)
  unfolding attempt_once
  attempt_once-IsJustified config t a n =
      let kind = t.trigger_type in
      Triple-Keeps IsJustified _ (
        Triple-bind _ _ (HasSeen t.trade_id) (get_trade-HasSeen t.trade_id) (λ trade.
          Triple-bind _ _ _ (date_now-HasSeen kind t.trade_id trade) (λ now.
            Triple-bind _ _ _ (Triple-lift _ (λ w p. p.0)) (λ _.
              Triple-bind _ _ (λ _. CanSend kind t.trade_id)
                (Triple-pre (λ w p. (p.0.0, p.0.1 (ok-of_from_oracle _ p.1)))
                  (update_trigger-CanSend kind t.trade_id t.idempotency_key _))
                (λ _.
                  Triple-bind _ _ (λ _. IsJustified)
                    (execute_blockchain_action-IsJustified kind t.trade_id)
                    (λ result. Keeps-Triple IsJustified _ (
                      Keeps-bind _ _ (date_now-Keeps IsJustified-Closed.quiet env) (λ at.
                        Keeps-bind _ _ (update_trigger-Keeps IsJustified-Closed env _ _)
                          (λ _. Keeps-pure _)))))))))
