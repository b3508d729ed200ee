-- ===== src/Reconciliation.antt =====
-- reconciliation/src/types.ts, and the Trade of sdk/src/types/trade.ts that it compares with.
pub mod Address
pub mod Classifier
pub mod Findings
pub mod Agreement
pub mod Store
pub mod Reconciler
pub mod Loop
pub mod Balance
pub mod Again
pub mod Rounds
mod Tests
use agroasys_web3layer.Prelude.{ℕ, String, Bool, Option, List}

-- The dates are kept by what the code reads of them: the text of `toISOString()`, none where the
-- date is invalid. Two valid dates are the same instant just where these texts are equal.
abbrev pub Date : Type 0
Date = Option String

pub data DriftSeverity : Type 0 where
  critical : DriftSeverity
  high : DriftSeverity
  medium : DriftSeverity
  low : DriftSeverity

pub data DriftCode : Type 0 where
  onchain_read_error : DriftCode
  onchain_trade_missing : DriftCode
  status_mismatch : DriftCode
  participant_mismatch : DriftCode
  amount_mismatch : DriftCode
  hash_mismatch : DriftCode
  arrival_timestamp_mismatch : DriftCode
  indexed_invalid_address : DriftCode
  onchain_invalid_address : DriftCode

-- The amounts are uint256 values of the chain and of its events.
pub record IndexedTradeRecord : Type 0 where
  pub trade_id : String
  pub buyer : String
  pub supplier : String
  pub status : String
  pub total_amount_locked : ℕ
  pub logistics_amount : ℕ
  pub platform_fees_amount : ℕ
  pub supplier_first_tranche : ℕ
  pub supplier_second_tranche : ℕ
  pub ricardian_hash : String
  pub created_at : Date
  pub arrival_timestamp : Option Date

-- The status is the number of the contract's enum.
pub record Trade : Type 0 where
  pub trade_id : String
  pub buyer : String
  pub supplier : String
  pub status : ℕ
  pub total_amount_locked : ℕ
  pub logistics_amount : ℕ
  pub platform_fees_amount : ℕ
  pub supplier_first_tranche : ℕ
  pub supplier_second_tranche : ℕ
  pub ricardian_hash : String
  pub created_at : Date
  pub arrival_timestamp : Option Date

pub record DriftFinding : Type 0 where
  pub trade_id : String
  pub severity : DriftSeverity
  pub mismatch_code : DriftCode
  pub compared_field : String
  pub onchain_value : Option String
  pub indexed_value : Option String
  pub details : List (String × String)

pub record CompareInput : Type 0 where
  pub indexed_trade : IndexedTradeRecord
  pub onchain_trade : Option Trade
  pub onchain_read_error : Option String

pub data ReconcileMode : Type 0 where
  once : ReconcileMode
  daemon : ReconcileMode

pub data ReconcileRunStatus : Type 0 where
  running : ReconcileRunStatus
  completed : ReconcileRunStatus
  failed : ReconcileRunStatus
  skipped : ReconcileRunStatus

-- `Record<DriftSeverity, number>`
pub record SeverityCounts : Type 0 where
  pub critical_count : ℕ
  pub high_count : ℕ
  pub medium_count : ℕ
  pub low_count : ℕ

pub record RunStats : Type 0 where
  pub run_key : String
  pub mode : ReconcileMode
  pub total_trades : ℕ
  pub drift_count : ℕ
  pub severity_counts : SeverityCounts
  pub status : ReconcileRunStatus
  pub skipped_reason : Option String

-- The four columns of counts are kept together.
pub record ReconcileRunRow : Type 0 where
  pub id : ℕ
  pub run_key : String
  pub mode : ReconcileMode
  pub status : ReconcileRunStatus
  pub started_at : ℕ
  pub completed_at : Option ℕ
  pub total_trades : ℕ
  pub drift_count : ℕ
  pub severity_counts : SeverityCounts
  pub error_message : Option String

-- The two functions of ethers that the classifier calls.
pub record Addresses : Type 0 where
  pub is_address : String → Bool
  pub get_address : String → String
