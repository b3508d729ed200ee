-- ===== src/Gateway/Compliance/Validation.antt =====
-- The validation of the bodies in gateway/src/core/complianceService.ts. A field of a body is its text, where
-- it is one; the checks of the shapes of JSON are left out.
pub mod Consistent
use agroasys_web3layer.Prelude.{
  ℕ, ◌<◌, String, Bool, true, false, not, ◌&&◌, ◌||◌, Option, none, some, List, [], ◌∷◌, any, ltb,
  leb, str_eq, if◌then◌else◌, ◌<>◌, trim, decimal, is_empty, utf16_length,
}
use agroasys_web3layer.Exec.{Result, ok, err}
use agroasys_web3layer.Gateway.{Failure, invalid}
use agroasys_web3layer.Gateway.Compliance.{
  ComplianceDecisionType, kyb, kyt, sanctions, ComplianceDecisionResult, allow, deny,
  ComplianceRiskLevel, low, medium, high, critical, EvidenceLink, Environment,
}
use agroasys_web3layer.Gateway.Compliance.Service.{
  MutationAuditInput, DecisionBody, ControlBody, override_active, is_allow, window_closed,
}

pub record RawAudit : Type 0 where
  pub reason : Option String
  pub ticket_ref : Option String
  pub evidence_links : List EvidenceLink

pub record RawDecision : Type 0 where
  pub trade_id : Option String
  pub decision_type : Option String
  pub result : Option String
  pub reason_code : Option String
  pub provider : Option String
  pub provider_ref : Option String
  pub subject_id : Option String
  pub subject_type : Option String
  pub risk_level : Option String
  pub override_window_ends_at : Option String
  pub correlation_id : Option String
  pub audit : RawAudit

pub record RawControl : Type 0 where
  pub reason_code : Option String
  pub decision_id : Option String
  pub audit : RawAudit

unfoldable pub then_check {ℓ κ} :
    {A : Type ℓ} {B : Type κ} → Result Failure A → (A → Result Failure B) → Result Failure B
then_check (ok a) f = f a
then_check (err e) f = err e

-- The trimmed text, or the empty one.
abbrev normalized : Option String → String
normalized none = ""
normalized (some text) = trim text

unfoldable pub validate_string_field : Option String → String → ℕ → ℕ → Result Failure String
validate_string_field value field min_length max_length =
    let text = normalized value in
    if ltb (utf16_length text) min_length || ltb max_length (utf16_length text)
    then err (
        invalid (
          field
          <> " must be between "
          <> decimal min_length
          <> " and "
          <> decimal max_length
          <> " characters"))
    else ok text

abbrev or_invalid {ℓ} : {A : Type ℓ} → String → Option A → Result Failure A
or_invalid field none = err (invalid (field <> " is invalid"))
or_invalid field (some a) = ok a

abbrev decision_type_of : String → Option ComplianceDecisionType
decision_type_of name =
    if str_eq name "KYB"
    then some kyb
    else if str_eq name "KYT"
    then some kyt
    else if str_eq name "SANCTIONS"
    then some sanctions
    else none

abbrev result_of : String → Option ComplianceDecisionResult
result_of name =
    if str_eq name "ALLOW" then some allow else if str_eq name "DENY" then some deny else none

abbrev risk_level_of : String → Option ComplianceRiskLevel
risk_level_of name =
    if str_eq name "low"
    then some low
    else if str_eq name "medium"
    then some medium
    else if str_eq name "high"
    then some high
    else if str_eq name "critical"
    then some critical
    else none

unfoldable pub validate_enum {ℓ} :
    {A : Type ℓ} → (String → Option A) → Option String → String → Result Failure A
validate_enum members none field = err (invalid (field <> " is invalid"))
validate_enum members (some name) field = or_invalid field (members name)

unfoldable pub validate_optional_risk_level :
    Option String → Result Failure (Option ComplianceRiskLevel)
unfolding validate_enum then_check
validate_optional_risk_level none = ok none
validate_optional_risk_level (some name) =
    then_check (validate_enum risk_level_of (some name) "riskLevel") (λ level. ok (some level))

unfoldable pub validate_optional_decision_id : Option String → Result Failure (Option String)
unfolding validate_string_field then_check
validate_optional_decision_id none = ok none
validate_optional_decision_id (some id) =
    then_check (validate_string_field (some id) "decisionId" 1 128) (λ text. ok (some text))

abbrev is_evidence_kind : String → Bool
is_evidence_kind kind = any (str_eq kind) (
    "runbook" ∷ "incident" ∷ "ticket" ∷ "tx" ∷ "event" ∷ "document" ∷ "log" ∷ "dashboard" ∷ "other"
    ∷ [])

abbrev is_blank : Option String → Bool
is_blank none = false
is_blank (some text) = is_empty (trim text)

abbrev trimmed_link : EvidenceLink → EvidenceLink
trimmed_link link = record {
  kind = link.kind;
  uri = trim link.uri;
  remark = elim link.remark [ none ↦ none | some text ↦ some (trim text) ];
}

unfoldable pub validate_evidence_link : EvidenceLink → Result Failure EvidenceLink
validate_evidence_link link =
    if not (is_evidence_kind link.kind)
    then err (invalid "audit.evidenceLinks kind is invalid")
    else if ltb (utf16_length (trim link.uri)) 3
    then err (invalid "audit.evidenceLinks uri is required")
    else if is_blank link.remark
    then err (invalid "audit.evidenceLinks note must be a non-empty string when provided")
    else ok (trimmed_link link)

unfoldable pub validate_evidence_links : List EvidenceLink → Result Failure (List EvidenceLink)
unfolding validate_evidence_link then_check
validate_evidence_links [] = ok []
validate_evidence_links (link ∷ links) =
    let rest = validate_evidence_links links in
    then_check (validate_evidence_link link)
      (λ first. then_check rest (λ others. ok (first ∷ others)))

abbrev some_links : List EvidenceLink → Result Failure (List EvidenceLink)
some_links [] = err (invalid "audit.evidenceLinks must contain at least one item")
some_links (link ∷ links) = ok (link ∷ links)

unfoldable pub validate_audit_input : RawAudit → Result Failure MutationAuditInput
unfolding validate_string_field validate_evidence_links then_check
validate_audit_input audit =
    then_check (validate_string_field audit.reason "audit.reason" 8 2000) (λ reason.
      then_check (validate_string_field audit.ticket_ref "audit.ticketRef" 2 128) (λ ticket_ref.
        then_check (some_links audit.evidence_links) (λ given.
          then_check (validate_evidence_links given) (λ links.
            ok (record { reason = reason; ticket_ref = ticket_ref; evidence_links = links })))))

unfoldable pub requires_deny : String → Bool
requires_deny code = any (str_eq code) (
    "CMP_KYB_FAILED" ∷ "CMP_KYT_FAILED" ∷ "CMP_SANCTIONS_MATCH" ∷ "CMP_PROVIDER_UNAVAILABLE"
    ∷ "CMP_PROVIDER_TIMEOUT" ∷ "CMP_AUDIT_WRITE_FAILED" ∷ [])

-- The window that an override needs.
abbrev pub check_window : ℕ → Option ℕ → Result Failure (Unit {0})
check_window now none =
    err (invalid "overrideWindowEndsAt is required when reasonCode=CMP_OVERRIDE_ACTIVE")
check_window now (some ends) =
    if leb ends now then err (invalid "overrideWindowEndsAt must be in the future") else ok tt

abbrev pub check_no_window : Option ℕ → Result Failure (Unit {0})
check_no_window none = ok tt
check_no_window (some ends) =
    err (invalid "overrideWindowEndsAt is allowed only when reasonCode=CMP_OVERRIDE_ACTIVE")

-- What the code, the result and the override's window allow together.
unfoldable pub check_override :
    ℕ → String → ComplianceDecisionResult → Option ℕ → Result Failure (Unit {0})
unfolding requires_deny
check_override now code result window =
    if requires_deny code && is_allow result
    then err (invalid (code <> " requires result=DENY"))
    else if str_eq code override_active
    then (if not (is_allow result)
        then err (invalid "CMP_OVERRIDE_ACTIVE requires result=ALLOW")
        else check_window now window)
    else check_no_window window

module _ (env : Environment) where
  unfoldable pub validate_optional_timestamp : Option String → String → Result Failure (Option ℕ)
  unfolding validate_string_field then_check
  validate_optional_timestamp none field = ok none
  validate_optional_timestamp (some text) field =
      then_check (validate_string_field (some text) field 10 64) (λ value.
        elim (env.date_parse value) [
          | none ↦ err (invalid (field <> " must be a valid ISO timestamp"))
          | some time ↦ ok (some time)
        ])

  -- The clock's reading is an argument.
  unfoldable pub validate_compliance_decision_create_request :
      ℕ → RawDecision → Result Failure DecisionBody
  validate_compliance_decision_create_request now raw =
      then_check (validate_enum result_of raw.result "result") (λ result.
        then_check (validate_string_field raw.reason_code "reasonCode" 3 128) (λ code.
          then_check
            (validate_optional_timestamp raw.override_window_ends_at "overrideWindowEndsAt")
            (λ window. then_check (check_override now code result window) (λ _.
              then_check (validate_string_field raw.trade_id "tradeId" 1 128) (λ trade_id.
                then_check (validate_enum decision_type_of raw.decision_type "decisionType")
                  (λ kind.
                    then_check (validate_string_field raw.provider "provider" 2 128) (λ provider.
                      then_check (validate_string_field raw.provider_ref "providerRef" 2 256)
                        (λ provider_ref.
                          then_check (validate_string_field raw.subject_id "subjectId" 1 256)
                            (λ subject_id.
                              then_check
                                (validate_string_field raw.subject_type "subjectType" 1 128)
                                (λ subject_type.
                                  then_check (validate_optional_risk_level raw.risk_level)
                                    (λ risk_level.
                                      then_check
                                        (validate_string_field raw.correlation_id "correlationId" 3
                                          128)
                                        (λ correlation_id.
                                          then_check (validate_audit_input raw.audit) (λ audit.
                                            ok (record {
                                              trade_id = trade_id;
                                              decision_type = kind;
                                              result = result;
                                              reason_code = code;
                                              provider = provider;
                                              provider_ref = provider_ref;
                                              subject_id = subject_id;
                                              subject_type = subject_type;
                                              risk_level = risk_level;
                                              override_window_ends_at = window;
                                              correlation_id = correlation_id;
                                              audit = audit;
                                            }))))))))))))))

unfoldable pub validate_compliance_operational_control_request :
    RawControl → Result Failure ControlBody
unfolding validate_string_field validate_optional_decision_id validate_audit_input then_check
validate_compliance_operational_control_request raw =
    then_check (validate_string_field raw.reason_code "reasonCode" 3 128) (λ code.
      then_check (validate_optional_decision_id raw.decision_id) (λ id.
        then_check (validate_audit_input raw.audit)
          (λ audit. ok (record { reason_code = code; decision_id = id; audit = audit }))))
