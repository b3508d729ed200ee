-- ===== src/Gateway/Compliance/Reads.antt =====
-- The reads of gateway/src/core/complianceStore.ts leave the tables as they are.
use agroasys_web3layer.Prelude.{suc, String, ◌≡◌, refl, ap, Option, none, some, find}
use agroasys_web3layer.Exec.{pure}
use agroasys_web3layer.Exec.Keeps.{Keeps, Keeps-pure, Keeps-throw, Keeps-if, Keeps-bind}
use agroasys_web3layer.Exec.Triple.{Outcome, Triple, Triple-bind, Keeps-Triple}
use agroasys_web3layer.Gateway.Compliance.{
  ComplianceDecisionRecord, ComplianceBlockState, ComplianceTradeStatusRecord, Environment,
  Register, tick, date_now,
}
use agroasys_web3layer.Gateway.Compliance.Store.{
  state_or_not_blocked, block_of, has_decision_id, with_block, latest, answered, query, reading,
  mapped, get_oracle_progression_block, get_decision, get_latest_decision, status_after, status_of,
  get_trade_status,
}
use agroasys_web3layer.Gateway.Compliance.Service.{
  of_trade, resolve_decision_for_trade, status_or_throw, require_trade_status, fresh_id,
}

-- The predicate does not look at the moment.
abbrev pub IsTimeless : (Register → Type 0) → Type 0
IsTimeless P = (s : Register) → P s → P (record s { moment = suc s.moment })

module _ (env : Environment) (P : Register → Type 0) (timeless : IsTimeless P) where
  pub date_now-Keeps : Keeps P (date_now env)
  unfolding date_now
  date_now-Keeps = record { at = timeless }

  pub fresh_id-Keeps : Keeps P (fresh_id env)
  unfolding fresh_id tick
  fresh_id-Keeps = record { at = timeless }

  reading-keeps :
      {A : Type 0} (fault : Option String) (f : Register → A) (s : Register)
      → P s
      → P (answered env fault (reading env f s) s).1
  reading-keeps none f s p = p
  reading-keeps (some e) f s p = p

  pub reading-Keeps : {A : Type 0} (f : Register → A) → Keeps P (query env (reading env f))
  unfolding query
  reading-Keeps f = record {
    at = λ s p.
        reading-keeps (env.query_fault s.moment) f (record s { moment = suc s.moment })
          (timeless s p);
  }

  pub get_block-Keeps : (trade : String) → Keeps P (get_oracle_progression_block env trade)
  unfolding get_oracle_progression_block
  get_block-Keeps trade = reading-Keeps (λ s. block_of trade s.blocks)

  mapped-Keeps : (row : Option ComplianceDecisionRecord) → Keeps P (mapped env row)
  mapped-Keeps none = Keeps-pure none
  mapped-Keeps (some d) =
      Keeps-bind (get_oracle_progression_block env d.trade_id) _ (get_block-Keeps d.trade_id)
        (λ block. Keeps-pure (some (with_block (state_or_not_blocked block) d)))

  pub get_decision-Keeps : (id : String) → Keeps P (get_decision env id)
  unfolding get_decision
  get_decision-Keeps id =
      Keeps-bind (query env (reading env (λ s. find (has_decision_id id) s.decisions))) (mapped env)
        (reading-Keeps (λ s. find (has_decision_id id) s.decisions)) mapped-Keeps

  pub get_latest_decision-Keeps : (trade : String) → Keeps P (get_latest_decision env trade)
  unfolding get_latest_decision
  get_latest_decision-Keeps trade =
      Keeps-bind (query env (reading env (λ s. latest env trade s.decisions))) (mapped env)
        (reading-Keeps (λ s. latest env trade s.decisions)) mapped-Keeps

  status_after-Keeps :
      (trade : String) (row : Option ComplianceDecisionRecord)
      → Keeps P (status_after env trade row)
  status_after-Keeps trade none = Keeps-pure none
  status_after-Keeps trade (some d) =
      Keeps-bind (get_oracle_progression_block env trade) _ (get_block-Keeps trade)
        (λ block. Keeps-pure (some (status_of env trade d block)))

  status_or_throw-Keeps :
      (status : Option ComplianceTradeStatusRecord) → Keeps P (status_or_throw env status)
  unfolding status_or_throw
  status_or_throw-Keeps none = Keeps-throw _
  status_or_throw-Keeps (some status) = Keeps-pure status

  pub require_trade_status-Keeps : (trade : String) → Keeps P (require_trade_status env trade)
  unfolding require_trade_status get_trade_status
  require_trade_status-Keeps trade =
      Keeps-bind (get_trade_status env trade) (status_or_throw env)
        (Keeps-bind (get_latest_decision env trade) (status_after env trade)
          (get_latest_decision-Keeps trade) (status_after-Keeps trade))
        status_or_throw-Keeps

  of_trade-Keeps :
      (trade : String) (row : Option ComplianceDecisionRecord) → Keeps P (of_trade env trade row)
  unfolding of_trade
  of_trade-Keeps trade none = Keeps-throw _
  of_trade-Keeps trade (some d) = Keeps-if _ _ _ (Keeps-pure (some d)) (Keeps-throw _)

  pub resolve_decision_for_trade-Keeps :
      (trade : String) (id : Option String) → Keeps P (resolve_decision_for_trade env trade id)
  unfolding resolve_decision_for_trade
  resolve_decision_for_trade-Keeps trade none = get_latest_decision-Keeps trade
  resolve_decision_for_trade-Keeps trade (some id) =
      Keeps-bind (get_decision env id) (of_trade env trade) (get_decision-Keeps id)
        (of_trade-Keeps trade)

-- The tables are those of an earlier state.
abbrev pub Same : Register → Register → Type 0
Same s0 s = (s.decisions ≡ s0.decisions) × (s.blocks ≡ s0.blocks) × (s.audit_log ≡ s0.audit_log)

-- A row as it is read: the block state is the one of its trade.
abbrev pub IsReading : Option ComplianceDecisionRecord → Option ComplianceDecisionRecord → Type 0
IsReading none r = r ≡ none
IsReading (some d) r = (state : ComplianceBlockState) × (r ≡ some (with_block state d))

module _ (env : Environment) (s0 : Register) where
  pub Same-timeless : IsTimeless (Same s0)
  Same-timeless s same = same

  reading-value :
      {A : Type 0} (fault : Option String) (f : Register → A) (s : Register)
      → ((s : Register) → Same s0 s → f s ≡ f s0)
      → Same s0 s
      → let r = answered env fault (reading env f s) s in
        Outcome (λ a s. Same s0 s × (a ≡ f s0)) (Same s0) r.0 r.1
  reading-value none f s steady same = (same, steady s same)
  reading-value (some e) f s steady same = same

  pub reading-Outcome :
      {A : Type 0} (f : Register → A)
      → ((s : Register) → Same s0 s → f s ≡ f s0)
      → Triple (Same s0) (query env (reading env f)) (λ a s. Same s0 s × (a ≡ f s0)) (Same s0)
  unfolding query
  reading-Outcome f steady = record {
    at = λ s same.
        reading-value (env.query_fault s.moment) f (record s { moment = suc s.moment }) steady same;
  }

  mapped-Outcome :
      (row : Option ComplianceDecisionRecord)
      → Triple (Same s0) (mapped env row) (λ r s. Same s0 s × IsReading row r) (Same s0)
  unfolding pure
  mapped-Outcome none = record { at = λ s same. (same, refl) }
  mapped-Outcome (some d) =
      Triple-bind (get_oracle_progression_block env d.trade_id) _ (λ _. Same s0)
        (Keeps-Triple (Same s0) _ (get_block-Keeps env (Same s0) Same-timeless d.trade_id))
        (λ block. record { at = λ s same. (same, (state_or_not_blocked block, refl)) })

  -- The latest decision is the one of the earlier state.
  pub get_latest_decision-Outcome :
      (trade : String)
      → Triple
          (Same s0)
          (get_latest_decision env trade)
          (λ r s. Same s0 s × IsReading (latest env trade s0.decisions) r)
          (Same s0)
  unfolding get_latest_decision
  get_latest_decision-Outcome trade =
      Triple-bind (query env (reading env (λ s. latest env trade s.decisions))) (mapped env) _
        (reading-Outcome (λ s. latest env trade s.decisions)
          (λ s (decisions, blocks, log). ap (latest env trade) decisions))
        (λ row. record { at = λ s (same, value). rw⁻¹ value ((mapped-Outcome row).at s same) })

  -- The trade's block is the one of the earlier state.
  pub get_block-Outcome :
      (trade : String)
      → Triple
          (Same s0)
          (get_oracle_progression_block env trade)
          (λ r s. Same s0 s × (r ≡ block_of trade s0.blocks))
          (Same s0)
  unfolding get_oracle_progression_block
  get_block-Outcome trade =
      reading-Outcome (λ s. block_of trade s.blocks)
        (λ s (decisions, blocks, log). ap (block_of trade) blocks)
