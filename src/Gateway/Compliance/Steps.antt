-- ===== src/Gateway/Compliance/Steps.antt =====
-- What a call of gateway/src/core/complianceService.ts does to the tables.
use mathlib.Core.Path.{subst}
use agroasys_web3layer.Prelude.{
  ℕ, suc, String, Bool, true, false, not, ◌≡◌, ◌≢◌, refl, sym, ap, ◌∙◌, inl, inr, Option, none,
  some, ◌∷◌, Bool-cases, any, str_eq,
}
use agroasys_web3layer.Exec.{throw, ◌>>=◌}
use agroasys_web3layer.Exec.Keeps.{Keeps, Keeps-pure, Keeps-throw, Keeps-if, Keeps-bind}
use agroasys_web3layer.Exec.Triple.{
  Outcome, Triple, Triple-bind, Triple-if, Triple-post, Keeps-Triple,
}
use agroasys_web3layer.Gateway.{Failure}
use agroasys_web3layer.Gateway.Compliance.{
  allow, deny, ComplianceDecisionResult, not_blocked, blocked, ComplianceDecisionRecord,
  OracleProgressionBlockRecord, AuditLogEntry, Environment, Register, Call, date_now,
}
use agroasys_web3layer.Gateway.Compliance.Store.{
  has_decision_id, latest, block_of, upsert_block, answered, query, writing_decision, writing_block,
  or_failed_decision, or_failed_block, get_decision, get_oracle_progression_block,
  get_latest_decision, save_decision_with_audit, save_block_state_with_audit, state_or_not_blocked,
}
use agroasys_web3layer.Gateway.Compliance.Service.{
  DecisionBody, ControlBody, MutationContext, decision_of, audit_entry, blocked_record,
  resumed_record, decided_after, next_decision_timestamp, fresh_id, create_decision,
  resolve_decision_for_trade, save_block, block_by, block_unless, block_oracle_progression,
  override_expired, resume_unless, resume_with, is_blocked, is_allow, is_other, given_id,
  window_closed, override_active, Mutation, create, block, resume,
}
use agroasys_web3layer.Gateway.Compliance.Reads.{
  IsTimeless, Same, Same-timeless, get_block-Outcome, IsReading, date_now-Keeps, fresh_id-Keeps,
  get_block-Keeps, get_decision-Keeps, get_latest_decision-Keeps, require_trade_status-Keeps,
  resolve_decision_for_trade-Keeps,
}

-- What an entry of the audit log says of a call.
abbrev pub IsEntry : String → String → String → MutationContext → AuditLogEntry → Type 0
IsEntry event status subject context entry =
    (entry.event_type ≡ event)
    × (entry.status ≡ status)
    × (entry.subject ≡ subject)
    × (entry.actor_user_id ≡ context.principal.user_id)
    × (entry.idempotency_key ≡ context.idempotency_key)

-- The steps of the tables that a call may make: none, for `create` the decision of its body under a new id,
-- for `block` a block of its trade, which was not blocked, and for `resume` the end of the block that its
-- trade had, where the trade's latest decision is ALLOW; each with the entry of that event.
pub data Step (env : Environment) (s0 s : Register) : Mutation → Type 0 where
  unchanged : {call : Mutation} → Same s0 s → Step env s0 s call
  decided :
      {body : DecisionBody} {context : MutationContext} (d : ComplianceDecisionRecord)
      (entry : AuditLogEntry)
      → (d.trade_id ≡ body.trade_id) × (d.result ≡ body.result) × (d.reason_code ≡ body.reason_code)
      → any (has_decision_id d.decision_id) s0.decisions ≡ false
      → IsEntry "compliance.decision.recorded" "recorded" d.decision_id context entry
      → s.decisions ≡ d ∷ s0.decisions
      → s.blocks ≡ s0.blocks
      → s.audit_log ≡ entry ∷ s0.audit_log
      → Step env s0 s (create body context)
  blocks_trade :
      {trade : String} {body : ControlBody} {context : MutationContext}
      (b : OracleProgressionBlockRecord) (entry : AuditLogEntry)
      → b.trade_id ≡ trade
      → b.block_state ≡ blocked
      → is_blocked (block_of trade s0.blocks) ≡ false
      → IsEntry "compliance.oracle_progression.blocked" "blocked" trade context entry
      → s.decisions ≡ s0.decisions
      → s.blocks ≡ upsert_block b s0.blocks
      → s.audit_log ≡ entry ∷ s0.audit_log
      → Step env s0 s (block trade body context)
  resumes_trade :
      {trade : String} {body : ControlBody} {context : MutationContext}
      (old b : OracleProgressionBlockRecord) (entry : AuditLogEntry) (d : ComplianceDecisionRecord)
      → block_of trade s0.blocks ≡ some old
      → old.block_state ≢ not_blocked
      → b.trade_id ≡ trade
      → b.block_state ≡ not_blocked
      → latest env trade s0.decisions ≡ some d
      → d.result ≡ allow
      → IsEntry "compliance.oracle_progression.resumed" "not_blocked" trade context entry
      → s.decisions ≡ s0.decisions
      → s.blocks ≡ upsert_block b s0.blocks
      → s.audit_log ≡ entry ∷ s0.audit_log
      → Step env s0 s (resume trade body context)

abbrev pub IsStep : Environment → Register → Mutation → Register → Type 0
IsStep env s0 call s = Step env s0 s call

Step-timeless :
    (env : Environment) (s0 : Register) {call : Mutation} → IsTimeless (IsStep env s0 call)
Step-timeless env s0 s (unchanged same) = unchanged same
Step-timeless env s0 s (decided d entry fields free said ds bs log) =
    decided d entry fields free said ds bs log
Step-timeless env s0 s (blocks_trade b entry trade state old said ds bs log) =
    blocks_trade b entry trade state old said ds bs log
Step-timeless env s0 s
      (resumes_trade old b entry d found was trade state newest result said ds bs log) =
    resumes_trade old b entry d found was trade state newest result said ds bs log

module _ (env : Environment) (s0 : Register) (call : Mutation) where
  stepped : {c : Mutation} (s : Register) → call ≡ c → Step env s0 s c → Step env s0 s call
  stepped s is step = subst (λ x. Step env s0 s x) (sym is) step

  -- A call that starts from the earlier tables and makes a step.
  abbrev pub Steps : {A : Type 0} → Call A → Type 0
  Steps m = Triple (Same s0) m (λ _. IsStep env s0 call) (IsStep env s0 call)

  unchanged-Steps :
      {A : Type 0} (m : Call A) → Triple (Same s0) m (λ _. Same s0) (Same s0) → Steps m
  unchanged-Steps m t = Triple-post (λ a s same. unchanged same) (λ s same. unchanged same) t

  -- A read in front of a step.
  after_read :
      {A B : Type 0} (m : Call A) (f : A → Call B)
      → Keeps (Same s0) m
      → ((a : A) → Steps (f a))
      → Steps (m >>= f)
  after_read m f keeps steps =
      Triple-bind m f (λ _. Same s0)
        (Triple-post (λ a s same. same) (λ s same. unchanged same) (Keeps-Triple (Same s0) m keeps))
        steps

  -- Reads behind a step.
  before_reads :
      {A B : Type 0} (m : Call A) (f : A → Call B)
      → Steps m
      → ((a : A) → Keeps (IsStep env s0 call) (f a))
      → Steps (m >>= f)
  before_reads m f steps keeps =
      Triple-bind m f (λ _. IsStep env s0 call) steps
        (λ a. Keeps-Triple (IsStep env s0 call) (f a) (keeps a))

  pub throw-Steps : {A : Type 0} (e : Failure) → Steps (throw {A = A} e)
  unfolding throw
  throw-Steps e = record { at = λ s same. unchanged same }

  -- A step that records the decision and the entry.
  abbrev Records : ComplianceDecisionRecord → AuditLogEntry → Type 0
  Records d entry =
      (s : Register)
      → any (has_decision_id d.decision_id) s0.decisions ≡ false
      → s.decisions ≡ d ∷ s0.decisions
      → s.blocks ≡ s0.blocks
      → s.audit_log ≡ entry ∷ s0.audit_log
      → IsStep env s0 call s

  written_decision :
      (fault : Option String) (d : ComplianceDecisionRecord) (entry : AuditLogEntry) (s : Register)
      → Records d entry
      → Same s0 s
      → let r = answered env fault (writing_decision env d entry s) s in
        Outcome (λ _. IsStep env s0 call) (IsStep env s0 call) r.0 r.1
  written_decision (some e) d entry s records same = unchanged same
  written_decision none d entry s records (ds, bs, log) =
      elim (Bool-cases (any (has_decision_id d.decision_id) s.decisions)) [
        | inl taken ↦ rw taken (unchanged (ds, bs, log))
        | inr free ↦ rw free (
            records _ (sym (ap (any (has_decision_id d.decision_id)) ds) ∙ free)
              (ap (λ l. d ∷ l) ds) bs (ap (λ l. entry ∷ l) log))
      ]

  save_decision-Steps :
      (d : ComplianceDecisionRecord) (entry : AuditLogEntry)
      → Records d entry
      → Steps (save_decision_with_audit env d entry)
  unfolding save_decision_with_audit query
  save_decision-Steps d entry records =
      before_reads (query env (writing_decision env d entry)) _
        (record {
          at = λ s same.
              written_decision (env.query_fault s.moment) d entry
                (record s { moment = suc s.moment }) records same;
        })
        (λ _.
          Keeps-bind (get_decision env d.decision_id) (or_failed_decision env d.decision_id)
            (get_decision-Keeps env (IsStep env s0 call) (Step-timeless env s0) d.decision_id)
            or_failed-Keeps)
    where
      or_failed-Keeps :
          (stored : Option ComplianceDecisionRecord)
          → Keeps (IsStep env s0 call) (or_failed_decision env d.decision_id stored)
      or_failed-Keeps none = Keeps-throw _
      or_failed-Keeps (some stored) = Keeps-pure stored

  pub create_decision-Steps :
      (body : DecisionBody) (context : MutationContext)
      → call ≡ create body context
      → Steps (create_decision env body context)
  unfolding create_decision next_decision_timestamp
  create_decision-Steps body context is =
      after_read (next_decision_timestamp env body.trade_id) _
        (Keeps-bind (get_latest_decision env body.trade_id) _
          (get_latest_decision-Keeps env (Same s0) (Same-timeless env s0) body.trade_id)
          (λ newest.
            Keeps-bind (date_now env) _ (date_now-Keeps env (Same s0) (Same-timeless env s0))
              (λ now. Keeps-pure (decided_after env now newest))))
        (λ decided_at.
          after_read (get_oracle_progression_block env body.trade_id) _
            (get_block-Keeps env (Same s0) (Same-timeless env s0) body.trade_id)
            (λ b.
              after_read (fresh_id env) _ (fresh_id-Keeps env (Same s0) (Same-timeless env s0))
                (λ id.
                  save_decision-Steps
                    (decision_of body context id decided_at (state_or_not_blocked b))
                    (audit_entry "compliance.decision.recorded" "recorded" id context)
                    (λ s free ds bs log. stepped s is (
                      decided _ _ (refl, refl, refl) free (refl, refl, refl, refl, refl) ds bs
                        log)))))

  -- A step that stores the block and the entry.
  abbrev Stores : OracleProgressionBlockRecord → AuditLogEntry → Type 0
  Stores b entry =
      (s : Register)
      → s.decisions ≡ s0.decisions
      → s.blocks ≡ upsert_block b s0.blocks
      → s.audit_log ≡ entry ∷ s0.audit_log
      → IsStep env s0 call s

  written_block :
      (fault : Option String) (b : OracleProgressionBlockRecord) (entry : AuditLogEntry)
      (s : Register)
      → Stores b entry
      → Same s0 s
      → let r = answered env fault (writing_block env b entry s) s in
        Outcome (λ _. IsStep env s0 call) (IsStep env s0 call) r.0 r.1
  written_block (some e) b entry s stores same = unchanged same
  written_block none b entry s stores (ds, bs, log) =
      stores (writing_block env b entry s).1 ds (ap (upsert_block b) bs) (ap (λ l. entry ∷ l) log)

  save_block-Steps :
      (trade : String) (b : OracleProgressionBlockRecord) (entry : AuditLogEntry)
      → Stores b entry
      → Steps (save_block env trade b entry)
  unfolding save_block save_block_state_with_audit query
  save_block-Steps trade b entry stores =
      before_reads (save_block_state_with_audit env b entry) _
        (before_reads (query env (writing_block env b entry)) _
          (record {
            at = λ s same.
                written_block (env.query_fault s.moment) b entry
                  (record s { moment = suc s.moment }) stores same;
          })
          (λ _.
            Keeps-bind (get_oracle_progression_block env b.trade_id)
              (or_failed_block env b.trade_id)
              (get_block-Keeps env (IsStep env s0 call) (Step-timeless env s0) b.trade_id)
              or_failed-Keeps))
        (λ _. require_trade_status-Keeps env (IsStep env s0 call) (Step-timeless env s0) trade)
    where
      or_failed-Keeps :
          (stored : Option OracleProgressionBlockRecord)
          → Keeps (IsStep env s0 call) (or_failed_block env b.trade_id stored)
      or_failed-Keeps none = Keeps-throw _
      or_failed-Keeps (some stored) = Keeps-pure stored

  date_now-first :
      {B : Type 0} (f : ℕ → Call B) → ((now : ℕ) → Steps (f now)) → Steps (date_now env >>= f)
  date_now-first f steps =
      after_read (date_now env) f (date_now-Keeps env (Same s0) (Same-timeless env s0)) steps

  module _ (trade : String) (body : ControlBody) (context : MutationContext) where
    block_by-Steps :
        call ≡ block trade body context
        → is_blocked (block_of trade s0.blocks) ≡ false
        → (d : Option ComplianceDecisionRecord) → Steps (block_by env trade body context d)
    unfolding block_by
    block_by-Steps is free none = throw-Steps _
    block_by-Steps is free (some d) = date_now-first _ (λ now.
        let b = blocked_record trade body context d.decision_id now in
        let entry = audit_entry "compliance.oracle_progression.blocked" "blocked" trade context in
        save_block-Steps trade b entry (λ s ds bs log.
          stepped s is
            (blocks_trade b entry refl refl free (refl, refl, refl, refl, refl) ds bs log)))

    pub resolve-first :
        {B : Type 0} (f : Option ComplianceDecisionRecord → Call B)
        → ((d : Option ComplianceDecisionRecord) → Steps (f d))
        → Steps (resolve_decision_for_trade env trade (given_id body.decision_id) >>= f)
    resolve-first f steps =
        after_read (resolve_decision_for_trade env trade (given_id body.decision_id)) f
          (resolve_decision_for_trade-Keeps env (Same s0) (Same-timeless env s0) trade
            (given_id body.decision_id))
          steps

    block_unless-Steps :
        call ≡ block trade body context
        → (existing : Option OracleProgressionBlockRecord) → existing ≡ block_of trade s0.blocks
        → Steps (block_unless env trade body context existing)
    unfolding block_unless
    block_unless-Steps is existing value =
        Triple-if (is_blocked existing) _ _ (λ already. throw-Steps _)
          (λ free.
            resolve-first (block_by env trade body context)
              (block_by-Steps is (sym (ap is_blocked value) ∙ free)))

    pub block_oracle_progression-Steps :
        call ≡ block trade body context → Steps (block_oracle_progression env trade body context)
    unfolding block_oracle_progression
    block_oracle_progression-Steps is =
        Triple-bind (get_oracle_progression_block env trade) _ _
          (Triple-post (λ r s h. h) (λ s h. unchanged h) (get_block-Outcome env s0 trade))
          (λ r. record { at = λ s (h, value). (block_unless-Steps is r value).at s h })

    -- What a resumption starts from.
    abbrev pub IsResumed : OracleProgressionBlockRecord → Type 0
    IsResumed old =
        (call ≡ resume trade body context)
        × (old.trade_id ≡ trade)
        × (block_of trade s0.blocks ≡ some old)
        × (old.block_state ≢ not_blocked)

    resume_unless-Steps :
        (existing : OracleProgressionBlockRecord) (u d : ComplianceDecisionRecord) (expired : Bool)
        → IsResumed existing
        → latest env trade s0.decisions ≡ some d
        → d.result ≡ allow
        → Steps (resume_unless env trade body context existing u expired)
    unfolding resume_unless
    resume_unless-Steps existing u d true from newest result = throw-Steps _
    resume_unless-Steps existing u d false (is, same, found, was) newest result =
        date_now-first _ (λ now.
          let b = resumed_record existing body context u.decision_id now in
          let entry =
            audit_entry "compliance.oracle_progression.resumed" "not_blocked" trade context in
          save_block-Steps trade b entry (λ s ds bs log. stepped s is (
            resumes_trade existing b entry d found was same refl newest result
              (refl, refl, refl, refl, refl) ds bs log)))

    override_expired-Keeps :
        (u : ComplianceDecisionRecord) → Keeps (Same s0) (override_expired env u)
    unfolding override_expired
    override_expired-Keeps u =
        Keeps-if (str_eq u.reason_code override_active) _ _
          (Keeps-bind (date_now env) _ (date_now-Keeps env (Same s0) (Same-timeless env s0))
            (λ now. Keeps-pure (window_closed u.override_window_ends_at now)))
          (Keeps-pure false)

    allows : (r : ComplianceDecisionResult) → not (is_allow r) ≡ false → r ≡ allow
    allows allow h = refl
    allows deny h = cc

    resume_newest-Steps :
        (existing : OracleProgressionBlockRecord) (requested : Option ComplianceDecisionRecord)
        (u : ComplianceDecisionRecord) (row : Option ComplianceDecisionRecord)
        → IsResumed existing
        → latest env trade s0.decisions ≡ row
        → IsReading row (some u)
        → Steps (resume_with env trade body context existing requested (some u))
    unfolding resume_with
    resume_newest-Steps existing requested u none same newest reading =
        let bad : ⊥ = cc in elim bad [ ]
    resume_newest-Steps existing requested u (some d) same newest (state, reading) =
        Triple-if (is_other requested u) _ _ (λ other. throw-Steps _)
          (λ is.
            Triple-if (not (is_allow u.result)) _ _ (λ denied. throw-Steps _)
              (λ allowed.
                let result : d.result ≡ u.result = sym (ap result_of reading) in
                after_read (override_expired env u) _ (override_expired-Keeps u) (λ expired.
                  resume_unless-Steps existing u d expired same newest
                    (result ∙ allows u.result allowed))))
      where
        result_of : Option ComplianceDecisionRecord → ComplianceDecisionResult
        result_of none = deny
        result_of (some v) = v.result

    pub resume_with-Steps :
        (existing : OracleProgressionBlockRecord)
        (requested newest : Option ComplianceDecisionRecord)
        → IsResumed existing
        → IsReading (latest env trade s0.decisions) newest
        → Steps (resume_with env trade body context existing requested newest)
    unfolding resume_with
    resume_with-Steps existing requested none same reading = throw-Steps _
    resume_with-Steps existing requested (some u) same reading =
        resume_newest-Steps existing requested u _ same refl reading
