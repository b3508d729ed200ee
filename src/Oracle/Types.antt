-- ===== src/Oracle/Types.antt =====
-- oracle/src/types/trigger.ts, and the `Trade` of sdk/src/types/trade.ts. Dates are milliseconds.
use agroasys_web3layer.Prelude.{ℕ, String, Bool, Option, none, ◌==◌}

pub data TriggerStatus : Type 0 where
  pending executing submitted confirmed failed : TriggerStatus
  exhausted_needs_redrive terminal_failure pending_approval rejected : TriggerStatus

abbrev pub status_code : TriggerStatus → ℕ
status_code pending = 0
status_code executing = 1
status_code submitted = 2
status_code confirmed = 3
status_code failed = 4
status_code exhausted_needs_redrive = 5
status_code terminal_failure = 6
status_code pending_approval = 7
status_code rejected = 8

-- `a === b`
abbrev pub status_eq : TriggerStatus → TriggerStatus → Bool
status_eq a b = status_code a == status_code b

abbrev pub status_name : TriggerStatus → String
status_name pending = "PENDING"
status_name executing = "EXECUTING"
status_name submitted = "SUBMITTED"
status_name confirmed = "CONFIRMED"
status_name failed = "FAILED"
status_name exhausted_needs_redrive = "EXHAUSTED_NEEDS_REDRIVE"
status_name terminal_failure = "TERMINAL_FAILURE"
status_name pending_approval = "PENDING_APPROVAL"
status_name rejected = "REJECTED"

-- A request body may name a type that is none of the enum's.
pub data TriggerType : Type 0 where
  release_stage_1 confirm_arrival finalize_trade : TriggerType
  unknown_type : String → TriggerType

abbrev pub type_name : TriggerType → String
type_name release_stage_1 = "RELEASE_STAGE_1"
type_name confirm_arrival = "CONFIRM_ARRIVAL"
type_name finalize_trade = "FINALIZE_TRADE"
type_name (unknown_type name) = name

pub data ErrorType : Type 0 where
  validation network contract terminal indexer_lag : ErrorType

pub record Trigger : Type 0 where
  pub id : ℕ
  pub action_key : String
  pub request_id : String
  pub idempotency_key : String
  pub trade_id : String
  pub trigger_type : TriggerType
  pub request_hash : Option String
  pub attempt_count : ℕ
  pub status : TriggerStatus
  pub tx_hash : Option String
  pub block_number : Option ℕ
  pub indexer_confirmed : Bool
  pub indexer_confirmed_at : Option ℕ
  pub indexer_event_id : Option String
  pub last_error : Option String
  pub error_type : Option ErrorType
  pub on_chain_verified : Bool
  pub on_chain_verified_at : Option ℕ
  pub created_at : ℕ
  pub submitted_at : Option ℕ
  pub confirmed_at : Option ℕ
  pub updated_at : ℕ
  pub approved_by : Option String
  pub approved_at : Option ℕ
  pub rejected_by : Option String
  pub rejected_at : Option ℕ
  pub rejection_reason : Option String

pub record CreateTriggerData : Type 0 where
  pub action_key : String
  pub request_id : String
  pub idempotency_key : String
  pub trade_id : String
  pub trigger_type : TriggerType
  pub request_hash : Option String
  pub status : TriggerStatus

-- A field that is `none` is `undefined`: the column keeps its value.
pub record UpdateTriggerData : Type 0 where
  pub status : Option TriggerStatus
  pub attempt_count : Option ℕ
  pub tx_hash : Option String
  pub block_number : Option ℕ
  pub indexer_confirmed : Option Bool
  pub indexer_confirmed_at : Option ℕ
  pub indexer_event_id : Option String
  pub last_error : Option String
  pub error_type : Option ErrorType
  pub submitted_at : Option ℕ
  pub confirmed_at : Option ℕ
  pub on_chain_verified : Option Bool
  pub on_chain_verified_at : Option ℕ
  pub approved_by : Option String
  pub approved_at : Option ℕ
  pub rejected_by : Option String
  pub rejected_at : Option ℕ

-- The update `{}`, which the callers fill in.
abbrev pub no_update : UpdateTriggerData
no_update = record {
  status = none;
  attempt_count = none;
  tx_hash = none;
  block_number = none;
  indexer_confirmed = none;
  indexer_confirmed_at = none;
  indexer_event_id = none;
  last_error = none;
  error_type = none;
  submitted_at = none;
  confirmed_at = none;
  on_chain_verified = none;
  on_chain_verified_at = none;
  approved_by = none;
  approved_at = none;
  rejected_by = none;
  rejected_at = none;
}

pub data TradeStatus : Type 0 where
  locked in_transit arrival_confirmed frozen closed : TradeStatus

-- The values of the enum.
abbrev pub trade_status_code : TradeStatus → ℕ
trade_status_code locked = 0
trade_status_code in_transit = 1
trade_status_code arrival_confirmed = 2
trade_status_code frozen = 3
trade_status_code closed = 4

-- `TradeStatus[status]`
abbrev pub trade_status_name : TradeStatus → String
trade_status_name locked = "LOCKED"
trade_status_name in_transit = "IN_TRANSIT"
trade_status_name arrival_confirmed = "ARRIVAL_CONFIRMED"
trade_status_name frozen = "FROZEN"
trade_status_name closed = "CLOSED"

pub record Trade : Type 0 where
  pub trade_id : String
  pub buyer : String
  pub supplier : String
  pub status : TradeStatus
  pub total_amount_locked : ℕ
  pub logistics_amount : ℕ
  pub platform_fees_amount : ℕ
  pub supplier_first_tranche : ℕ
  pub supplier_second_tranche : ℕ
  pub ricardian_hash : String
  pub created_at : ℕ
  pub arrival_timestamp : Option ℕ

-- The response of the manager's methods.
pub record TriggerResponse : Type 0 where
  pub idempotency_key : String
  pub action_key : String
  pub request_id : String
  pub status : TriggerStatus
  pub tx_hash : Option String
  pub block_number : Option ℕ
  pub message : String

pub record TriggerRequest : Type 0 where
  pub trade_id : String
  pub request_id : String
  pub trigger_type : TriggerType
  pub request_hash : Option String
  pub is_redrive : Bool

pub record BlockchainResult : Type 0 where
  pub tx_hash : String
  pub block_number : ℕ
