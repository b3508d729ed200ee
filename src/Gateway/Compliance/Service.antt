-- ===== src/Gateway/Compliance/Service.antt =====
-- ComplianceService of gateway/src/core/complianceService.ts. The two calls of a `Promise.all` run one after
-- the other.
use agroasys_web3layer.Prelude.{
  ℕ, ◌+◌, max, String, Bool, true, false, not, Option, none, some, List, [], ◌∷◌, leb, str_eq,
  if◌then◌else◌, is_empty,
}
use agroasys_web3layer.Exec.{ok, pure, throw, ◌>>=◌, ◌>>◌}
use agroasys_web3layer.Gateway.{gateway, not_found, internal_error, conflict_error}
use agroasys_web3layer.Gateway.Compliance.{
  ComplianceDecisionType, ComplianceDecisionResult, allow, deny, ComplianceBlockState, not_blocked,
  blocked, resume_pending, ComplianceRiskLevel, EvidenceLink, ComplianceAuditRecord,
  ComplianceDecisionRecord, OracleProgressionBlockRecord, ComplianceTradeStatusRecord,
  AuditLogEntry, Environment, Register, Call, tick, date_now,
}
use agroasys_web3layer.Gateway.Compliance.Store.{
  state_or_not_blocked, get_oracle_progression_block, get_decision, get_latest_decision,
  get_trade_status, save_decision_with_audit, save_block_state_with_audit,
}

pub record MutationAuditInput : Type 0 where
  pub reason : String
  pub ticket_ref : String
  pub evidence_links : List EvidenceLink

pub record GatewayPrincipal : Type 0 where
  pub session_reference : String
  pub wallet_address : String
  pub role : String
  pub user_id : String

-- What a route hands over beside the body.
pub record MutationContext : Type 0 where
  pub principal : GatewayPrincipal
  pub request_id : String
  pub correlation_id : Option String
  pub route_path : String
  pub idempotency_key : String

pub record DecisionBody : Type 0 where
  pub trade_id : String
  pub decision_type : ComplianceDecisionType
  pub result : ComplianceDecisionResult
  pub reason_code : String
  pub provider : String
  pub provider_ref : String
  pub subject_id : String
  pub subject_type : String
  pub risk_level : Option ComplianceRiskLevel
  pub override_window_ends_at : Option ℕ
  pub correlation_id : String
  pub audit : MutationAuditInput

pub record ControlBody : Type 0 where
  pub reason_code : String
  pub decision_id : Option String
  pub audit : MutationAuditInput

abbrev pub override_active : String
override_active = "CMP_OVERRIDE_ACTIVE"

abbrev pub build_audit_record : MutationAuditInput → GatewayPrincipal → ℕ → ComplianceAuditRecord
build_audit_record audit principal created_at = record {
  reason = audit.reason;
  evidence_links = audit.evidence_links;
  ticket_ref = audit.ticket_ref;
  actor_session_id = principal.session_reference;
  actor_wallet = principal.wallet_address;
  actor_role = principal.role;
  created_at = created_at;
  requested_by = principal.user_id;
}

abbrev pub audit_entry : String → String → String → MutationContext → AuditLogEntry
audit_entry event status subject context = record {
  event_type = event;
  route = context.route_path;
  request_id = context.request_id;
  correlation_id = context.correlation_id;
  actor_user_id = context.principal.user_id;
  actor_wallet_address = context.principal.wallet_address;
  actor_role = context.principal.role;
  status = status;
  subject = subject;
  idempotency_key = context.idempotency_key;
}

abbrev pub decision_of :
    DecisionBody → MutationContext → String → ℕ → ComplianceBlockState → ComplianceDecisionRecord
decision_of body context id decided_at state = record {
  decision_id = id;
  trade_id = body.trade_id;
  decision_type = body.decision_type;
  result = body.result;
  reason_code = body.reason_code;
  provider = body.provider;
  provider_ref = body.provider_ref;
  subject_id = body.subject_id;
  subject_type = body.subject_type;
  risk_level = body.risk_level;
  correlation_id = body.correlation_id;
  decided_at = decided_at;
  override_window_ends_at = body.override_window_ends_at;
  block_state = state;
  audit = build_audit_record body.audit context.principal decided_at;
}

abbrev pub blocked_record :
    String → ControlBody → MutationContext → String → ℕ → OracleProgressionBlockRecord
blocked_record trade body context decision_id now = record {
  trade_id = trade;
  latest_decision_id = decision_id;
  block_state = blocked;
  reason_code = body.reason_code;
  request_id = context.request_id;
  correlation_id = context.correlation_id;
  audit = build_audit_record body.audit context.principal now;
  blocked_at = some now;
  resumed_at = none;
  updated_at = now;
}

abbrev pub resumed_record :
    OracleProgressionBlockRecord
    → ControlBody
    → MutationContext
    → String
    → ℕ
    → OracleProgressionBlockRecord
resumed_record existing body context decision_id now = record existing {
  latest_decision_id = decision_id;
  block_state = not_blocked;
  reason_code = body.reason_code;
  request_id = context.request_id;
  correlation_id = context.correlation_id;
  audit = build_audit_record body.audit context.principal now;
  resumed_at = some now;
  updated_at = now;
}

-- A decision id that is given and is not the empty text.
abbrev pub given_id : Option String → Option String
given_id none = none
given_id (some id) = if is_empty id then none else some id

abbrev pub state_is_blocked : ComplianceBlockState → Bool
state_is_blocked blocked = true
state_is_blocked not_blocked = false
state_is_blocked resume_pending = false

abbrev pub is_blocked : Option OracleProgressionBlockRecord → Bool
is_blocked none = false
is_blocked (some block) = state_is_blocked block.block_state

-- The trade's block, where it is in another state than not blocked.
abbrev pub in_force : Option OracleProgressionBlockRecord → Option OracleProgressionBlockRecord
in_force none = none
in_force (some block) = elim block.block_state [ not_blocked ↦ none | _ ↦ some block ]

abbrev pub is_allow : ComplianceDecisionResult → Bool
is_allow allow = true
is_allow deny = false

-- The override's window is closed, where the decision rests on one.
abbrev pub window_closed : Option ℕ → ℕ → Bool
window_closed none now = true
window_closed (some ends) now = leb ends now

abbrev pub is_other : Option ComplianceDecisionRecord → ComplianceDecisionRecord → Bool
is_other none newest = false
is_other (some requested) newest = not (str_eq requested.decision_id newest.decision_id)

module _ (env : Environment) where
  abbrev pub decided_after : ℕ → Option ComplianceDecisionRecord → ℕ
  decided_after now none = now
  decided_after now (some d) = max now (d.decided_at + 1)

  unfoldable pub next_decision_timestamp : String → Call ℕ
  unfolding get_latest_decision date_now ◌>>=◌
  next_decision_timestamp trade = do
    newest ← get_latest_decision env trade
    now ← date_now env
    pure (decided_after now newest)

  unfoldable pub fresh_id : Call String
  fresh_id s = (ok (env.random_uuid s.moment), (tick s).1)

  unfoldable pub create_decision : DecisionBody → MutationContext → Call ComplianceDecisionRecord
  unfolding next_decision_timestamp fresh_id get_oracle_progression_block save_decision_with_audit
      ◌>>=◌
  create_decision body context = do
    decided_at ← next_decision_timestamp body.trade_id
    block ← get_oracle_progression_block env body.trade_id
    id ← fresh_id
    save_decision_with_audit env
        (decision_of body context id decided_at (state_or_not_blocked block))
        (audit_entry "compliance.decision.recorded" "recorded" id context)

  unfoldable pub of_trade :
      String → Option ComplianceDecisionRecord → Call (Option ComplianceDecisionRecord)
  of_trade trade none = throw (
      gateway
        (record { status_code = 404; code = not_found; message = "Compliance decision not found" }))
  of_trade trade (some d) =
      if str_eq d.trade_id trade
      then pure (some d)
      else throw (conflict_error "Compliance decision does not belong to the requested trade")

  unfoldable pub resolve_decision_for_trade :
      String → Option String → Call (Option ComplianceDecisionRecord)
  unfolding get_decision get_latest_decision of_trade ◌>>=◌
  resolve_decision_for_trade trade none = get_latest_decision env trade
  resolve_decision_for_trade trade (some id) = get_decision env id >>= of_trade trade

  unfoldable pub status_or_throw :
      Option ComplianceTradeStatusRecord → Call ComplianceTradeStatusRecord
  status_or_throw (some status) = pure status
  status_or_throw none = throw (
      gateway (record {
        status_code = 500;
        code = internal_error;
        message = "Failed to assemble compliance trade status after mutation";
      }))

  unfoldable pub require_trade_status : String → Call ComplianceTradeStatusRecord
  unfolding get_trade_status status_or_throw ◌>>=◌
  require_trade_status trade = get_trade_status env trade >>= status_or_throw

  -- The block is stored, and the trade's status is read.
  unfoldable pub save_block :
      String → OracleProgressionBlockRecord → AuditLogEntry → Call ComplianceTradeStatusRecord
  unfolding save_block_state_with_audit require_trade_status ◌>>=◌
  save_block trade block entry = do
    save_block_state_with_audit env block entry
    require_trade_status trade

  unfoldable pub block_by :
      String
      → ControlBody
      → MutationContext
      → Option ComplianceDecisionRecord
      → Call ComplianceTradeStatusRecord
  unfolding save_block date_now ◌>>=◌
  block_by trade body context none =
      throw (conflict_error "A compliance decision must exist before blocking oracle progression")
  block_by trade body context (some d) = do
    now ← date_now env
    save_block trade (blocked_record trade body context d.decision_id now)
        (audit_entry "compliance.oracle_progression.blocked" "blocked" trade context)

  unfoldable pub block_unless :
      String
      → ControlBody
      → MutationContext
      → Option OracleProgressionBlockRecord
      → Call ComplianceTradeStatusRecord
  unfolding resolve_decision_for_trade block_by ◌>>=◌
  block_unless trade body context existing =
      if is_blocked existing
      then throw (conflict_error "Oracle progression is already blocked for this trade")
      else resolve_decision_for_trade trade (given_id body.decision_id)
        >>= block_by trade body context

  unfoldable pub block_oracle_progression :
      String → ControlBody → MutationContext → Call ComplianceTradeStatusRecord
  unfolding get_oracle_progression_block block_unless ◌>>=◌
  block_oracle_progression trade body context =
      get_oracle_progression_block env trade >>= block_unless trade body context

  -- The clock is read where the decision rests on an override.
  unfoldable pub override_expired : ComplianceDecisionRecord → Call Bool
  unfolding date_now ◌>>=◌
  override_expired d =
      if str_eq d.reason_code override_active
      then (date_now env >>= λ now. pure (window_closed d.override_window_ends_at now))
      else pure false

  unfoldable pub resume_unless :
      String
      → ControlBody
      → MutationContext
      → OracleProgressionBlockRecord
      → ComplianceDecisionRecord
      → Bool
      → Call ComplianceTradeStatusRecord
  unfolding save_block date_now ◌>>=◌
  resume_unless trade body context existing d expired =
      if expired
      then throw (
          conflict_error
            "The active override window has expired; oracle progression cannot be resumed")
      else (do
        now ← date_now env
        save_block trade (resumed_record existing body context d.decision_id now)
            (audit_entry "compliance.oracle_progression.resumed" "not_blocked" trade context))

  unfoldable pub resume_with :
      String
      → ControlBody
      → MutationContext
      → OracleProgressionBlockRecord
      → Option ComplianceDecisionRecord
      → Option ComplianceDecisionRecord
      → Call ComplianceTradeStatusRecord
  unfolding override_expired resume_unless ◌>>=◌
  resume_with trade body context existing requested none =
      throw (
        conflict_error
          "An ALLOW compliance decision is required before resuming oracle progression")
  resume_with trade body context existing requested (some newest) =
      if is_other requested newest
      then throw (
          conflict_error
            "The latest effective compliance decision must be used when resuming oracle progression")
      else if not (is_allow newest.result)
      then throw (
          conflict_error
            "The latest effective compliance decision must be ALLOW before resuming oracle progression")
      else override_expired newest >>= resume_unless trade body context existing newest

  unfoldable pub resume_existing :
      String
      → ControlBody
      → MutationContext
      → Option OracleProgressionBlockRecord
      → Call ComplianceTradeStatusRecord
  unfolding resolve_decision_for_trade get_latest_decision resume_with ◌>>=◌
  resume_existing trade body context none =
      throw (conflict_error "Oracle progression is not currently blocked for this trade")
  resume_existing trade body context (some existing) = do
    requested ← resolve_decision_for_trade trade (given_id body.decision_id)
    newest ← get_latest_decision env trade
    resume_with trade body context existing requested newest

  unfoldable pub resume_oracle_progression :
      String → ControlBody → MutationContext → Call ComplianceTradeStatusRecord
  unfolding get_oracle_progression_block resume_existing ◌>>=◌
  resume_oracle_progression trade body context = get_oracle_progression_block env trade >>= λ block.
      resume_existing trade body context (in_force block)

-- A call of the service that may change the tables.
pub data Mutation : Type 0 where
  create : DecisionBody → MutationContext → Mutation
  block resume : String → ControlBody → MutationContext → Mutation

module _ (env : Environment) where
  unfoldable pub apply : Mutation → Register → Register
  unfolding create_decision block_oracle_progression resume_oracle_progression
  apply (create body context) s = (create_decision env body context s).1
  apply (block trade body context) s = (block_oracle_progression env trade body context s).1
  apply (resume trade body context) s = (resume_oracle_progression env trade body context s).1

  unfoldable pub apply_all : List Mutation → Register → Register
  unfolding apply
  apply_all [] s = s
  apply_all (m ∷ mutations) s = apply_all mutations (apply m s)
