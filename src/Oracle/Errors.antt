-- ===== src/Oracle/Errors.antt =====
-- oracle/src/utils/errors.ts: which errors end a trigger and which are retried.
use agroasys_web3layer.Prelude.{
  ℕ, String, Bool, true, false, ◌||◌, Option, leb, if◌then◌else◌, includes,
}
use agroasys_web3layer.Oracle.Types.{
  ErrorType, TriggerStatus, failed, terminal_failure, exhausted_needs_redrive,
}

-- The subclasses of `OracleError`; the class itself is never instantiated.
pub data OracleError : Type 0 where
  validation_error : String → OracleError
  network_error : String → OracleError
  contract_error : String → Bool → OracleError

abbrev pub message : OracleError → String
message (validation_error m) = m
message (network_error m) = m
message (contract_error m terminal) = m

abbrev pub error_type : OracleError → ErrorType
error_type (validation_error m) = ErrorType.validation
error_type (network_error m) = ErrorType.network
error_type (contract_error m terminal) = ErrorType.contract

abbrev pub is_terminal : OracleError → Bool
is_terminal (validation_error m) = true
is_terminal (network_error m) = false
is_terminal (contract_error m terminal) = terminal

-- An error of a library, of the chain or of the database, with what the code reads of it.
pub record ForeignError : Type 0 where
  pub name : String
  pub text : String
  pub code : Option String
  pub reason : Option String

-- What a `catch` may be handed.
pub data JsError : Type 0 where
  oracle : OracleError → JsError
  foreign : ForeignError → JsError

abbrev pub error_message : JsError → String
error_message (oracle e) = message e
error_message (foreign e) = e.text

-- `error.name`
abbrev pub error_name : JsError → String
error_name (oracle (validation_error m)) = "ValidationError"
error_name (oracle (network_error m)) = "NetworkError"
error_name (oracle (contract_error m terminal)) = "ContractError"
error_name (foreign e) = e.name

pub is_business_violation : String → Bool
is_business_violation m =
    includes m "Cannot release stage 1"
    || includes m "Cannot confirm arrival"
    || includes m "Cannot finalize"
    || includes m "Invalid trade ID"
    || includes m "Dispute window"
    || includes m "expected LOCKED"
    || includes m "expected IN_TRANSIT"
    || includes m "expected ARRIVAL_CONFIRMED"

pub is_network_failure : String → Bool
is_network_failure m =
    includes m "network"
    || includes m "timeout"
    || includes m "ECONNREFUSED"
    || includes m "ETIMEDOUT"
    || includes m "ENOTFOUND"
    || includes m "fetch failed"
    || includes m "connection"

pub is_contract_failure : String → Bool
is_contract_failure m =
    includes m "execution reverted" || includes m "revert" || includes m "require"

pub is_terminal_revert : String → Bool
is_terminal_revert m =
    includes m "invalid state"
    || includes m "not authorized"
    || includes m "trade does not exist"
    || includes m "already executed"
    || includes m "paused"
    || includes m "oracle disabled"
    || includes m "only oracle"
    || includes m "proposal expired"
    || includes m "timelock not elapsed"

-- `toLowerCase` is JavaScript's, and a parameter.
unfoldable pub classify_error : (String → String) → JsError → OracleError
classify_error to_lower_case (oracle e) = e
classify_error to_lower_case (foreign e) =
    if is_business_violation e.text
    then validation_error e.text
    else if is_network_failure e.text
    then network_error e.text
    else if is_contract_failure e.text
    then contract_error e.text (is_terminal_revert (to_lower_case e.text))
    else network_error e.text

unfoldable pub determine_next_status : OracleError → ℕ → ℕ → TriggerStatus
determine_next_status e attempt_count max_attempts =
    if is_terminal e
    then terminal_failure
    else if leb max_attempts attempt_count
    then exhausted_needs_redrive
    else failed
