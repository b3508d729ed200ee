-- ===== src/Oracle/Manager/Stores.antt =====
-- What an update of oracle/src/database/queries.ts leaves stored, and how many transactions a call
-- sends.
use agroasys_web3layer.Prelude.{
  ℕ, suc, ◌≤◌, String, true, ◌≡◌, refl, none, some, List, [], ◌∷◌, find, Bool-cases, inl, inr,
  arith,
}
use agroasys_web3layer.Exec.{modify}
use agroasys_web3layer.Exec.Triple.{Outcome, Triple, Triple-bind, Triple-pre, Keeps-Triple}
use agroasys_web3layer.Oracle.Types.{
  Trigger, TriggerType, TriggerStatus, UpdateTriggerData, release_stage_1, confirm_arrival,
  finalize_trade, unknown_type,
}
use agroasys_web3layer.Oracle.Errors.{JsError}
use agroasys_web3layer.Oracle.Table.{
  is_active, has_key, row_by_key, set_row, conflicts, update_row, update_trigger_row, apply_update,
}
use agroasys_web3layer.Oracle.Services.{
  Environment, World, ChainCall, observed, sent, tick, settle, query, update_trigger, record_sent,
  send, execute_blockchain_action,
}
use agroasys_web3layer.Exec.Keeps.{Keeps-lift, Keeps-throw}
use agroasys_web3layer.Oracle.Services.Keeps.{Quiet}

-- The transactions of a log.
abbrev pub sends : List ChainCall → ℕ
sends [] = 0
sends (observed n id trade ∷ log) = sends log
sends (sent n kind id ∷ log) = suc (sends log)

-- The trigger's row is there, and at most `n` transactions were sent.
abbrev pub IsReady : String → ℕ → World → Type 0
IsReady k n w = ((t : Trigger) × (row_by_key k w.table.rows ≡ some t)) × (sends w.chain_log ≤ n)

-- The row stores the status, and at most `n` transactions were sent.
abbrev pub HasStored : String → ℕ → TriggerStatus → World → Type 0
HasStored k n s w =
    ((t : Trigger) × (row_by_key k w.table.rows ≡ some t) × (t.status ≡ s))
    × (sends w.chain_log ≤ n)

pub HasStored-IsReady :
    (k : String) (n : ℕ) (s : TriggerStatus) (w : World) → HasStored k n s w → IsReady k n w
HasStored-IsReady k n s w h = ((h.0.0, h.0.1), h.1)

find-set_row :
    (f : Trigger → Trigger) (k : String) (rows : List Trigger) (t : Trigger)
    → ((u : Trigger) → (f u).idempotency_key ≡ u.idempotency_key)
    → find (has_key k) rows ≡ some t
    → find (has_key k) (set_row f k rows) ≡ some (f t)
unfolding set_row
find-set_row f k [] t same e = cc
find-set_row f k (u ∷ us) t same e = elim (Bool-cases (has_key k u)) [
  | inl hit ↦
      let u-t : u ≡ t = ground (arith, hit) in
      let hit' : has_key k (f u) ≡ true = rw (same u) hit in rw hit (ground (arith, hit', u-t))
  | inr miss ↦ rw miss (ground (arith, miss, find-set_row f k us t same))
]

conflicts-active :
    (k : String) (u : UpdateTriggerData) (s : TriggerStatus) (now : ℕ) (t : Trigger)
    (rows : List Trigger)
    → u.status ≡ some s
    → conflicts k (apply_update u now t) rows ≡ true
    → is_active s ≡ true
unfolding conflicts
conflicts-active k u s now t rows st c = ground (arith, st)

module _ (env : Environment) (up : (n : ℕ) → env.query_fault n ≡ none) (k : String) (n : ℕ) where
  update_row-Outcome :
      (u : UpdateTriggerData) (s : TriggerStatus) (now : ℕ) (w : World) (t : Trigger)
      → u.status ≡ some s
      → row_by_key k w.table.rows ≡ some t
      → sends w.chain_log ≤ n
      → Outcome
          (λ _. HasStored k n s)
          (λ w'. (is_active s ≡ true) × IsReady k n w')
          (settle w (update_trigger_row u now k w.table)).0
          (settle w (update_trigger_row u now k w.table)).1
  unfolding update_trigger_row update_row
  update_row-Outcome u s now w t st found few =
      rw (found, update_row)
        (elim (Bool-cases (conflicts k (apply_update u now t) w.table.rows)) [
          | inl c ↦ rw c (conflicts-active k u s now t w.table.rows st c, ((t, found), few))
          | inr c ↦ rw c (
            (
              apply_update u now t,
              find-set_row (apply_update u now) k w.table.rows t (λ v. refl) found,
              rw st,
            ),
            few,
          )
        ])

  pub update_trigger-stores :
      (u : UpdateTriggerData) (s : TriggerStatus)
      → u.status ≡ some s
      → Triple
          (IsReady k n)
          (update_trigger env k u)
          (λ _. HasStored k n s)
          (λ w. (is_active s ≡ true) × IsReady k n w)
  unfolding update_trigger query
  update_trigger-stores u s st = record {
    at = λ w p. rw (up w.moment) (
        update_row-Outcome u s (env.now w.moment) (record w { moment = suc w.moment }) p.0.0 st
          p.0.1 p.1);
  }

pub IsReady-Quiet : (k : String) (n : ℕ) → Quiet (IsReady k n)
IsReady-Quiet k n = record {
  ticked = λ w m p. p;
  slept = λ w l p. p;
  noticed = λ w l p. p;
  saw = λ w m id trade p. p;
}

pub HasStored-Quiet : (k : String) (n : ℕ) (s : TriggerStatus) → Quiet (HasStored k n s)
HasStored-Quiet k n s = record {
  ticked = λ w m p. p;
  slept = λ w l p. p;
  noticed = λ w l p. p;
  saw = λ w m id trade p. p;
}

pub IsReady-suc : (k : String) (n : ℕ) (w : World) → IsReady k n w → IsReady k (suc n) w
IsReady-suc k n w p = (p.0, omega arith)

record_sent-IsReady :
    (k : String) (n m : ℕ) (kind : TriggerType) (trade_id : String)
    → Triple {E = JsError}
        (IsReady k n)
        (modify (record_sent m kind trade_id))
        (λ _. IsReady k (suc n))
        (IsReady k (suc n))
unfolding modify record_sent
record_sent-IsReady k n m kind trade_id = record { at = λ w p. (p.0, omega arith) }

module _ (env : Environment) (k : String) (n : ℕ) where
  send-IsReady :
      (kind : TriggerType) (trade_id : String)
      → Triple (IsReady k n) (send env kind trade_id) (λ _. IsReady k (suc n)) (IsReady k (suc n))
  unfolding send tick
  send-IsReady kind trade_id =
      Triple-bind _ _ (λ m. IsReady k n) (record { at = λ w p. p })
        (λ m.
          Triple-bind _ _ (λ _. IsReady k (suc n)) (record_sent-IsReady k n m kind trade_id)
            (λ _. Keeps-Triple (IsReady k (suc n)) _ (Keeps-lift _)))

  pub execute_blockchain_action-IsReady :
      (kind : TriggerType) (trade_id : String)
      → Triple
          (IsReady k n)
          (execute_blockchain_action env kind trade_id)
          (λ _. IsReady k (suc n))
          (IsReady k (suc n))
  unfolding execute_blockchain_action
  execute_blockchain_action-IsReady release_stage_1 trade_id = send-IsReady _ trade_id
  execute_blockchain_action-IsReady confirm_arrival trade_id = send-IsReady _ trade_id
  execute_blockchain_action-IsReady finalize_trade trade_id = send-IsReady _ trade_id
  execute_blockchain_action-IsReady (unknown_type name) trade_id =
      Triple-pre (λ w p. IsReady-suc k n w p) (Keeps-Triple (IsReady k (suc n)) _ (Keeps-throw _))
