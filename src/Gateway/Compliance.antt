-- ===== src/Gateway/Compliance.antt =====
-- gateway/src/core/complianceStore.ts: the records of the compliance component, its tables and the state
-- that its calls share. A time is the number of its milliseconds. The newest row of a table stands first.
pub mod Validation
pub mod Store
pub mod Service
pub mod Reads
pub mod Steps
pub mod Resume
pub mod Latest
mod Tests
use agroasys_web3layer.Prelude.{ℕ, suc, String, Bool, true, false, Option, List}
use agroasys_web3layer.Exec.{Result, ok, Exec}
use agroasys_web3layer.Gateway.{Failure}

pub data ComplianceDecisionType : Type 0 where
  kyb kyt sanctions : ComplianceDecisionType

pub data ComplianceDecisionResult : Type 0 where
  allow deny : ComplianceDecisionResult

pub data ComplianceBlockState : Type 0 where
  not_blocked blocked resume_pending : ComplianceBlockState

pub data ComplianceRiskLevel : Type 0 where
  low medium high critical : ComplianceRiskLevel

pub record EvidenceLink : Type 0 where
  pub kind : String
  pub uri : String
  pub remark : Option String

pub record ComplianceAuditRecord : Type 0 where
  pub reason : String
  pub evidence_links : List EvidenceLink
  pub ticket_ref : String
  pub actor_session_id : String
  pub actor_wallet : String
  pub actor_role : String
  pub created_at : ℕ
  pub requested_by : String

-- The block state of a decision is read from the trade's block, and is not stored with it.
pub record ComplianceDecisionRecord : Type 0 where
  pub decision_id : String
  pub trade_id : String
  pub decision_type : ComplianceDecisionType
  pub result : ComplianceDecisionResult
  pub reason_code : String
  pub provider : String
  pub provider_ref : String
  pub subject_id : String
  pub subject_type : String
  pub risk_level : Option ComplianceRiskLevel
  pub correlation_id : String
  pub decided_at : ℕ
  pub override_window_ends_at : Option ℕ
  pub block_state : ComplianceBlockState
  pub audit : ComplianceAuditRecord

pub record OracleProgressionBlockRecord : Type 0 where
  pub trade_id : String
  pub latest_decision_id : String
  pub block_state : ComplianceBlockState
  pub reason_code : String
  pub request_id : String
  pub correlation_id : Option String
  pub audit : ComplianceAuditRecord
  pub blocked_at : Option ℕ
  pub resumed_at : Option ℕ
  pub updated_at : ℕ

pub record ComplianceTradeStatusRecord : Type 0 where
  pub trade_id : String
  pub current_result : ComplianceDecisionResult
  pub oracle_progression_blocked : Bool
  pub block_state : ComplianceBlockState
  pub latest_decision_id : String
  pub latest_reason_code : String
  pub latest_provider : String
  pub latest_correlation_id : String
  pub updated_at : ℕ

-- gateway/src/core/auditLogStore.ts, with the decision or the trade of the metadata.
pub record AuditLogEntry : Type 0 where
  pub event_type : String
  pub route : String
  pub request_id : String
  pub correlation_id : Option String
  pub actor_user_id : String
  pub actor_wallet_address : String
  pub actor_role : String
  pub status : String
  pub subject : String
  pub idempotency_key : String

-- Each field but the last two is asked at a moment.
pub record Environment : Type 0 where
  -- a statement or a transaction fails, with the error's text
  pub query_fault : ℕ → Option String
  pub now : ℕ → ℕ
  -- `randomUUID()`
  pub random_uuid : ℕ → String
  -- the database's order of decision ids
  pub id_less : String → String → Bool
  -- `Date.parse(text)`, where it is no NaN
  pub date_parse : String → Option ℕ

pub record Register : Type 0 where
  pub decisions : List ComplianceDecisionRecord
  pub blocks : List OracleProgressionBlockRecord
  pub audit_log : List AuditLogEntry
  pub moment : ℕ

abbrev pub Call : Type 0 → Type 0
Call A = Exec Register Failure A

-- The next moment.
unfoldable pub tick : Call ℕ
tick s = (ok s.moment, record s { moment = suc s.moment })

module _ (env : Environment) where
  unfoldable pub date_now : Call ℕ
  date_now s = (ok (env.now s.moment), record s { moment = suc s.moment })
