-- ===== src/Oracle/Services/Keeps.antt =====
-- Which predicates on the world the calls of oracle/src's services keep.
use agroasys_web3layer.Prelude.{ℕ, suc, String, Option, none, some, List, ◌∷◌}
use agroasys_web3layer.Exec.{Result, ok, err, lift, modify, ◌>>=◌}
use agroasys_web3layer.Exec.Keeps.{
  Keeps, Keeps-catch, Keeps-if, Keeps-bind, Keeps-throw, keeps_rules,
}
use agroasys_web3layer.Oracle.Types.{
  Trigger, Trade, CreateTriggerData, UpdateTriggerData, TriggerType, release_stage_1,
  confirm_arrival, finalize_trade, unknown_type,
}
use agroasys_web3layer.Oracle.Errors.{JsError}
use agroasys_web3layer.Oracle.Table.{
  Table, insert_row, update_trigger_row, approve_row, reject_row, row_by_key, latest_by_action,
}
use agroasys_web3layer.Oracle.Table.Unique.{IsUnique}
use agroasys_web3layer.Oracle.Table.Statements.{
  rows_after, insert_row-IsUnique, update_trigger_row-IsUnique, approve_row-IsUnique,
  reject_row-IsUnique,
}
use agroasys_web3layer.Oracle.Services.{
  Environment, World, Notice, observed, tick, settle, unless_down, date_now, generate_request_id,
  query, get_trigger_by_idempotency_key, get_latest_trigger_by_action_key, is_unique_violation,
  reuse, create_trigger, update_trigger, approve_trigger, reject_trigger, record_observed,
  record_sent, get_trade, sleep, notify, sent, send, execute_blockchain_action,
}

-- The changes that every service may make, all but writing a row and sending a transaction.
pub record Quiet (P : World → Type 0) : Type 0 where
  pub ticked : (w : World) (n : ℕ) → P w → P (record w { moment = n })
  pub slept : (w : World) (l : List ℕ) → P w → P (record w { sleeps = l })
  pub noticed : (w : World) (l : List Notice) → P w → P (record w { notices = l })
  pub saw :
      (w : World) (n : ℕ) (trade_id : String) (trade : Trade)
      → P w
      → P (record w { chain_log = observed n trade_id trade ∷ w.chain_log })

-- With the writes, whose tables keep the constraints.
pub record Closed (P : World → Type 0) : Type 0 where
  pub quiet : Quiet P
  pub open quiet use *
  pub stored :
      (w : World) (table : Table)
      → (IsUnique w.table.rows → IsUnique table.rows)
      → P w
      → P (record w { table = table })

module _ {P : World → Type 0} (c : Quiet P) where
  pub tick-Keeps : Keeps P tick
  unfolding tick
  tick-Keeps = record { at = λ w p. c.ticked w _ p }

  pub sleep-Keeps : (ms : ℕ) → Keeps P (sleep ms)
  unfolding sleep
  sleep-Keeps ms = search (keeps_rules, c.slept)

  pub notify-Keeps : (n : Notice) → Keeps P (notify n)
  unfolding notify
  notify-Keeps n = search (keeps_rules, c.noticed)

  module _ (env : Environment) where
    pub date_now-Keeps : Keeps P (date_now env)
    unfolding date_now
    date_now-Keeps = search (keeps_rules, tick-Keeps)

    pub generate_request_id-Keeps : Keeps P (generate_request_id env)
    unfolding generate_request_id
    generate_request_id-Keeps = search (keeps_rules, tick-Keeps)

    pub get_trade-Keeps : (trade_id : String) → Keeps P (get_trade env trade_id)
    unfolding get_trade record_observed
    get_trade-Keeps trade_id = search (keeps_rules, tick-Keeps, c.saw) depth 8

module _ {P : World → Type 0} (c : Closed P) where
  settle-keeps :
      {A : Type 0} (w : World) (r : Result JsError (A × Table))
      → (IsUnique w.table.rows → IsUnique (rows_after r w.table.rows))
      → P w
      → P (settle w r).1
  settle-keeps w (ok (a, table)) u p = c.stored w table u p
  settle-keeps w (err e) u p = p

  module _ (env : Environment) where
    query-keeps :
        {A : Type 0} (w : World) (fault : Option JsError) (r : Result JsError (A × Table))
        → (IsUnique w.table.rows → IsUnique (rows_after r w.table.rows))
        → P w
        → P (settle w (unless_down fault r)).1
    query-keeps w none r u p = settle-keeps w r u p
    query-keeps w (some e) r u p = p

    pub query-Keeps :
        {A : Type 0} (statement : ℕ → Table → Result JsError (A × Table))
        → ((now : ℕ) (table : Table)
            → IsUnique table.rows
            → IsUnique (rows_after (statement now table) table.rows))
        → Keeps P (query env statement)
    unfolding query
    query-Keeps statement u = record {
      at = λ w p.
          query-keeps (record w { moment = suc w.moment }) (env.query_fault w.moment)
            (statement (env.now w.moment) w.table) (u (env.now w.moment) w.table) (c.ticked w _ p);
    }

    pub get_trigger_by_idempotency_key-Keeps :
        (k : String) → Keeps P (get_trigger_by_idempotency_key env k)
    unfolding get_trigger_by_idempotency_key
    get_trigger_by_idempotency_key-Keeps k =
        query-Keeps (λ now table. ok (row_by_key k table.rows, table)) (λ now table u. u)

    pub get_latest_trigger_by_action_key-Keeps :
        (a : String) → Keeps P (get_latest_trigger_by_action_key env a)
    unfolding get_latest_trigger_by_action_key
    get_latest_trigger_by_action_key-Keeps a =
        query-Keeps (λ now table. ok (latest_by_action a table.rows, table)) (λ now table u. u)

    reuse-Keeps : (e : JsError) (o : Option Trigger) → Keeps P (reuse e o)
    reuse-Keeps e none = search keeps_rules
    reuse-Keeps e (some t) = search keeps_rules

    pub create_trigger-Keeps : (d : CreateTriggerData) → Keeps P (create_trigger env d)
    unfolding create_trigger
    create_trigger-Keeps d =
        Keeps-catch _ _
          (query-Keeps (λ now. insert_row now d) (λ now table u. insert_row-IsUnique now d table u))
          (λ e.
            Keeps-if (is_unique_violation e) _ _
              (Keeps-bind _ _ (get_latest_trigger_by_action_key-Keeps d.action_key) (reuse-Keeps e))
              (Keeps-throw e))

    pub update_trigger-Keeps :
        (k : String) (u : UpdateTriggerData) → Keeps P (update_trigger env k u)
    unfolding update_trigger
    update_trigger-Keeps k u =
        query-Keeps (λ now. update_trigger_row u now k)
          (λ now table v. update_trigger_row-IsUnique now k table v u)

    pub approve_trigger-Keeps : (k actor : String) → Keeps P (approve_trigger env k actor)
    unfolding approve_trigger
    approve_trigger-Keeps k actor =
        query-Keeps (λ now. approve_row actor now k)
          (λ now table v. approve_row-IsUnique now k table v actor)

    pub reject_trigger-Keeps :
        (k actor : String) (reason : Option String) → Keeps P (reject_trigger env k actor reason)
    unfolding reject_trigger
    reject_trigger-Keeps k actor reason =
        query-Keeps (λ now. reject_row actor reason now k)
          (λ now table v. reject_row-IsUnique now k table v actor reason)

module _ {P : World → Type 0}
    (sending : (w : World) (n : ℕ) (kind : TriggerType) (id : String)
      → P w
      → P (record w { moment = suc w.moment; chain_log = sent n kind id ∷ w.chain_log }))
    (env : Environment) where
  send-Keeps : (kind : TriggerType) (id : String) → Keeps P (send env kind id)
  unfolding send tick modify lift record_sent ◌>>=◌
  send-Keeps kind id = record { at = λ w p. sending w w.moment kind id p }

  pub execute_blockchain_action-Keeps :
      (kind : TriggerType) (id : String) → Keeps P (execute_blockchain_action env kind id)
  unfolding execute_blockchain_action
  execute_blockchain_action-Keeps (unknown_type name) id = Keeps-throw _
  execute_blockchain_action-Keeps release_stage_1 id = send-Keeps _ id
  execute_blockchain_action-Keeps confirm_arrival id = send-Keeps _ id
  execute_blockchain_action-Keeps finalize_trade id = send-Keeps _ id
