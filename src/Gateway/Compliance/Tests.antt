-- ===== src/Gateway/Compliance/Tests.antt =====
-- A trade that a sanctions match blocks and an override resumes.
use agroasys_web3layer.Prelude.{false, refl, none, some, [], ◌∷◌}
use agroasys_web3layer.Gateway.Compliance.{
  sanctions, allow, deny, not_blocked, blocked, ComplianceDecisionRecord, Environment, Register,
  tick,
}
use agroasys_web3layer.Gateway.Compliance.Service.{
  MutationAuditInput, MutationContext, DecisionBody, ControlBody, create_decision, resume, apply,
  decision_of, blocked_record,
}
use agroasys_web3layer.Gateway.Compliance.Validation.{
  RawDecision, then_check, validate_enum, validate_string_field, validate_optional_timestamp,
  check_override, validate_optional_risk_level, validate_audit_input,
  validate_compliance_decision_create_request,
}
use agroasys_web3layer.Gateway.Compliance.Validation.Consistent.{
  IsConsistent, validate-IsConsistent,
}
use agroasys_web3layer.Gateway.Compliance.Steps.{Step}
use agroasys_web3layer.Gateway.Compliance.Resume.{IsAllowed, apply-Step, apply-unblocks}
use agroasys_web3layer.Gateway.Compliance.Latest.{IsEffective, create_decision-IsEffective}

-- The clock runs backwards.
abbrev calm : Environment
calm = record {
  query_fault = λ n. none;
  now = λ n. 500;
  random_uuid = λ n. "d2";
  id_less = λ a b. false;
  date_parse = λ t. some 9000;
}

abbrev audit : MutationAuditInput
audit = record {
  reason = "sanctions review";
  ticket_ref = "T-1";
  evidence_links = record { kind = "ticket"; uri = "https://t/1"; remark = none } ∷ [];
}

abbrev context : MutationContext
context = record {
  principal = record {
    session_reference = "s1";
    wallet_address = "0xaa";
    role = "admin";
    user_id = "u1";
  };
  request_id = "r1";
  correlation_id = none;
  route_path = "/api/dashboard-gateway/v1/compliance/decisions";
  idempotency_key = "k1";
}

abbrev body : DecisionBody
body = record {
  trade_id = "7";
  decision_type = sanctions;
  result = allow;
  reason_code = "CMP_OVERRIDE_ACTIVE";
  provider = "screening";
  provider_ref = "ref-1";
  subject_id = "buyer-1";
  subject_type = "company";
  risk_level = none;
  override_window_ends_at = some 9000;
  correlation_id = "corr-1";
  audit = audit;
}

abbrev denied : ComplianceDecisionRecord
denied = record (decision_of body context "d1" 1000 not_blocked) {
  result = deny;
  reason_code = "CMP_SANCTIONS_MATCH";
  override_window_ends_at = none;
}

abbrev control : ControlBody
control = record { reason_code = "CMP_REVIEW"; decision_id = none; audit = audit }

abbrev blocked_register : Register
blocked_register = record {
  decisions = denied ∷ [];
  blocks = blocked_record "7" control context "d1" 1000 ∷ [];
  audit_log = [];
  moment = 3;
}

abbrev allowed_register : Register
allowed_register = record blocked_register {
  decisions = decision_of body context "d2" 1001 blocked ∷ denied ∷ [];
}

apply-Step_example :
    Step calm allowed_register
      (apply calm (resume "7" control context) allowed_register)
      (resume "7" control context)
apply-Step_example = apply-Step calm (resume "7" control context) allowed_register

apply-unblocks_example : IsAllowed calm "7" allowed_register
unfolding apply
apply-unblocks_example =
    apply-unblocks calm "7" (resume "7" control context) allowed_register refl refl

create_decision-IsEffective_example :
    IsEffective calm body context (create_decision calm body context blocked_register).1
unfolding create_decision tick
create_decision-IsEffective_example =
    create_decision-IsEffective calm body context blocked_register
      (decision_of body context "d2" 1001 blocked) refl

abbrev raw : RawDecision
raw = record {
  trade_id = some " 7 ";
  decision_type = some "SANCTIONS";
  result = some "ALLOW";
  reason_code = some "CMP_OVERRIDE_ACTIVE";
  provider = some "screening";
  provider_ref = some "ref-1";
  subject_id = some "buyer-1";
  subject_type = some "company";
  risk_level = none;
  override_window_ends_at = some "2026-03-01T00:00:00Z";
  correlation_id = some "corr-1";
  audit = record {
    reason = some "sanctions review";
    ticket_ref = some "T-1";
    evidence_links = record { kind = "ticket"; uri = "https://t/1"; remark = none } ∷ [];
  };
}

validate-IsConsistent_example : IsConsistent 500 "CMP_OVERRIDE_ACTIVE" allow (some 9000)
unfolding validate_compliance_decision_create_request then_check validate_enum validate_string_field
    validate_optional_timestamp check_override validate_optional_risk_level validate_audit_input
validate-IsConsistent_example = validate-IsConsistent calm 500 raw body refl
