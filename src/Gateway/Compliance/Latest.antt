-- ===== src/Gateway/Compliance/Latest.antt =====
-- Which decision of gateway/src/core/complianceService.ts is the latest one.
use agroasys_web3layer.Prelude.{
  ℕ, suc, ◌<◌, String, false, ◌≡◌, refl, sym, ap, ◌∙◌, inl, inr, Option, none, some, ◌∷◌,
  Bool-cases, Option-cases, arith, any, eq_refl,
}
use agroasys_web3layer.Exec.{Result, ok, err, pure}
use agroasys_web3layer.Exec.Keeps.{Keeps, Keeps-pure, Keeps-throw, Keeps-bind}
use agroasys_web3layer.Exec.Triple.{Outcome, Triple, Triple-bind, Triple-post, Keeps-Triple}
use agroasys_web3layer.Gateway.{Failure}
use agroasys_web3layer.Gateway.Compliance.{
  ComplianceBlockState, ComplianceDecisionRecord, AuditLogEntry, Environment, Register, Call,
  date_now,
}
use agroasys_web3layer.Gateway.Compliance.Store.{
  has_decision_id, latest, precedes, answered, query, writing_decision, or_failed_decision,
  get_decision, get_oracle_progression_block, get_latest_decision, save_decision_with_audit,
  state_or_not_blocked,
}
use agroasys_web3layer.Gateway.Compliance.Service.{
  DecisionBody, MutationContext, decision_of, audit_entry, decided_after, next_decision_timestamp,
  fresh_id, create_decision,
}
use agroasys_web3layer.Gateway.Compliance.Reads.{
  IsTimeless, Same, Same-timeless, IsReading, fresh_id-Keeps, get_block-Keeps, get_decision-Keeps,
  get_latest_decision-Outcome,
}

time_of : Option ComplianceDecisionRecord → ℕ
time_of none = 0
time_of (some d) = d.decided_at

module _ (env : Environment) (s0 : Register) (trade : String) where
  -- The time is after the trade's latest decision.
  abbrev IsAfter : ℕ → Type 0
  IsAfter t =
      (d : ComplianceDecisionRecord) → latest env trade s0.decisions ≡ some d → d.decided_at < t

  decided_after-IsAfter :
      (now : ℕ) (row r : Option ComplianceDecisionRecord)
      → latest env trade s0.decisions ≡ row
      → IsReading row r
      → IsAfter (decided_after env now r)
  unfolding time_of
  decided_after-IsAfter now none r missing reading d h =
      let bad : ⊥ = cc (missing, h) in elim bad [ ]
  decided_after-IsAfter now (some e) none found (state, reading) d h =
      let bad : ⊥ = cc reading in elim bad [ ]
  decided_after-IsAfter now (some e) (some u) found (state, reading) d h =
      ground (arith, ap time_of reading, ap time_of (sym found ∙ h))

  next-IsAfter :
      Triple (Same s0) (next_decision_timestamp env trade) (λ t s. Same s0 s × IsAfter t) (Same s0)
  unfolding next_decision_timestamp date_now pure
  next-IsAfter =
      Triple-bind (get_latest_decision env trade) _
        (λ r s. Same s0 s × IsReading (latest env trade s0.decisions) r)
        (get_latest_decision-Outcome env s0 trade)
        (λ newest.
          Triple-bind (date_now env) (λ now. pure (decided_after env now newest))
            (λ now s. Same s0 s × IsReading (latest env trade s0.decisions) newest)
            (record { at = λ s h. h })
            (λ now. record {
              at = λ s (same, reading). (same, decided_after-IsAfter now _ newest refl reading);
            }))

  latest_new :
      (d : ComplianceDecisionRecord)
      → d.trade_id ≡ trade
      → IsAfter d.decided_at
      → latest env trade (d ∷ s0.decisions) ≡ some d
  latest_new d same after = elim (Option-cases (latest env trade s0.decisions)) [
    | inl missing ↦ rw (same, eq_refl trade, missing) refl
    | inr (e, found) ↦
        let before : e.decided_at < d.decided_at = after e found in
        let first : precedes env d e ≡ false = ground (arith, before) in
        rw (same, eq_refl trade, found, first) refl
  ]

-- A decision made from the body is the trade's latest one.
abbrev pub IsEffective : Environment → DecisionBody → MutationContext → Register → Type 0
IsEffective env body context s =
    (id : String) × (t : ℕ) × (state : ComplianceBlockState) × (latest env body.trade_id s.decisions
      ≡ some (decision_of body context id t state))

abbrev Anything : Register → Type 0
Anything s = Unit

module _ (env : Environment) (s0 : Register) (body : DecisionBody) (context : MutationContext) where
  abbrev Goal : Register → Type 0
  Goal = IsEffective env body context

  Goal-timeless : IsTimeless Goal
  Goal-timeless s h = h

  forget :
      {A : Type 0} (Q : A → Register → Type 0) (m : Call A)
      → Triple (Same s0) m Q (Same s0)
      → Triple (Same s0) m Q Anything
  forget Q m t = Triple-post (λ a s q. q) (λ s same. tt) t

  written :
      (fault : Option String) (id : String) (t : ℕ) (state : ComplianceBlockState)
      (entry : AuditLogEntry) (s : Register)
      → Same s0 s
      → IsAfter env s0 body.trade_id t
      → let d = decision_of body context id t state in
        let r = answered env fault (writing_decision env d entry s) s in
        Outcome (λ _. Goal) Anything r.0 r.1
  written (some e) id t state entry s same after = tt
  written none id t state entry s (ds, bs, log) after =
      let d = decision_of body context id t state in
      elim (Bool-cases (any (has_decision_id id) s.decisions)) [
        | inl taken ↦ rw taken tt
        | inr free ↦
            let newest : latest env body.trade_id (d ∷ s.decisions) ≡ some d =
              rw ds (latest_new env s0 body.trade_id d refl after) in
            rw free (id, t, state, newest)
      ]

  or_failed-Keeps :
      (id : String) (stored : Option ComplianceDecisionRecord)
      → Keeps Goal (or_failed_decision env id stored)
  or_failed-Keeps id none = Keeps-throw _
  or_failed-Keeps id (some stored) = Keeps-pure stored

  anything : {A : Type 0} (m : Call A) → Keeps Goal m → Triple Goal m (λ _. Goal) Anything
  anything m keeps = Triple-post (λ a s g. g) (λ s g. tt) (Keeps-Triple Goal m keeps)

  save-Outcome :
      (id : String) (t : ℕ) (state : ComplianceBlockState) (entry : AuditLogEntry)
      → IsAfter env s0 body.trade_id t
      → Triple
          (Same s0)
          (save_decision_with_audit env (decision_of body context id t state) entry)
          (λ _. Goal)
          Anything
  unfolding save_decision_with_audit query
  save-Outcome id t state entry after =
      let d = decision_of body context id t state in
      Triple-bind (query env (writing_decision env d entry)) _ (λ _. Goal)
        (record {
          at = λ s same.
              written (env.query_fault s.moment) id t state entry
                (record s { moment = suc s.moment }) same after;
        })
        (λ _. anything _ (
          Keeps-bind (get_decision env id) (or_failed_decision env id)
            (get_decision-Keeps env Goal Goal-timeless id) (or_failed-Keeps id)))

  create-Outcome : Triple (Same s0) (create_decision env body context) (λ _. Goal) Anything
  unfolding create_decision
  create-Outcome =
      Triple-bind (next_decision_timestamp env body.trade_id) _
        (λ t s. Same s0 s × IsAfter env s0 body.trade_id t)
        (forget _ _ (next-IsAfter env s0 body.trade_id))
        (λ t. record {
          at = λ s (same, after).
              (Triple-bind (get_oracle_progression_block env body.trade_id) _ (λ _. Same s0)
                  (forget _ _ (
                    Keeps-Triple (Same s0) _
                      (get_block-Keeps env (Same s0) (Same-timeless env s0) body.trade_id)))
                  (λ b.
                    Triple-bind (fresh_id env) _ (λ _. Same s0)
                      (forget _ _ (
                        Keeps-Triple (Same s0) _
                          (fresh_id-Keeps env (Same s0) (Same-timeless env s0))))
                      (λ id.
                        save-Outcome id t (state_or_not_blocked b)
                          (audit_entry "compliance.decision.recorded" "recorded" id context)
                          after))).at
                s same;
        })

  effective :
      (r : Result Failure ComplianceDecisionRecord) (s : Register) (made : ComplianceDecisionRecord)
      → r ≡ ok made
      → Outcome (λ _. Goal) Anything r s
      → Goal s
  effective (ok d) s made h g = g
  effective (err e) s made h g = let bad : ⊥ = cc h in elim bad [ ]

-- A decision that was recorded is its trade's latest one, whatever the clock says.
pub create_decision-IsEffective :
    (env : Environment) (body : DecisionBody) (context : MutationContext) (s : Register)
    (made : ComplianceDecisionRecord)
    → (create_decision env body context s).0 ≡ ok made
    → IsEffective env body context (create_decision env body context s).1
create_decision-IsEffective env body context s made done =
    effective env s body context _ _ made done
      ((create-Outcome env s body context).at s (refl, refl, refl))
