-- ===== src/Gateway/Compliance/Store.antt =====
-- The statements of gateway/src/core/complianceStore.ts and the transactions of
-- gateway/src/core/complianceWriteStore.ts. A transaction takes place at one moment: it fails and leaves the
-- tables as they were, or both of its rows are written.
use agroasys_web3layer.Prelude.{
  suc, max, String, Bool, true, false, ◌&&◌, ◌||◌, Option, none, some, List, [], ◌∷◌, find, any,
  ltb, ◌==◌, str_eq, if◌then◌else◌, ◌<>◌,
}
use agroasys_web3layer.Exec.{Result, ok, err, pure, throw, ◌>>=◌, ◌>>◌}
use agroasys_web3layer.Gateway.{Failure, plain}
use agroasys_web3layer.Gateway.Compliance.{
  ComplianceBlockState, not_blocked, blocked, resume_pending, ComplianceDecisionRecord,
  OracleProgressionBlockRecord, ComplianceTradeStatusRecord, AuditLogEntry, Environment, Register,
  Call,
}

abbrev pub blocked_flag : ComplianceBlockState → Bool
blocked_flag not_blocked = false
blocked_flag blocked = true
blocked_flag resume_pending = true

-- `block?.blockState ?? 'not_blocked'`
abbrev pub state_or_not_blocked : Option OracleProgressionBlockRecord → ComplianceBlockState
state_or_not_blocked none = not_blocked
state_or_not_blocked (some block) = block.block_state

abbrev pub is_block_of : String → OracleProgressionBlockRecord → Bool
is_block_of trade block = str_eq block.trade_id trade

abbrev pub block_of :
    String → List OracleProgressionBlockRecord → Option OracleProgressionBlockRecord
block_of trade blocks = find (is_block_of trade) blocks

-- `INSERT … ON CONFLICT (trade_id) DO UPDATE SET` of every column.
abbrev pub upsert_block :
    OracleProgressionBlockRecord
    → List OracleProgressionBlockRecord
    → List OracleProgressionBlockRecord
upsert_block block [] = block ∷ []
upsert_block block (b ∷ blocks) =
    let rest = upsert_block block blocks in
    if is_block_of block.trade_id b then block ∷ blocks else b ∷ rest

abbrev pub has_decision_id : String → ComplianceDecisionRecord → Bool
has_decision_id id d = str_eq d.decision_id id

abbrev pub with_block : ComplianceBlockState → ComplianceDecisionRecord → ComplianceDecisionRecord
with_block state d = record d { block_state = state }

module _ (env : Environment) where
  -- `ORDER BY decided_at DESC, decision_id DESC`
  abbrev pub precedes : ComplianceDecisionRecord → ComplianceDecisionRecord → Bool
  precedes d e =
      ltb d.decided_at e.decided_at
      || d.decided_at == e.decided_at && env.id_less d.decision_id e.decision_id

  abbrev pub later :
      ComplianceDecisionRecord → Option ComplianceDecisionRecord → ComplianceDecisionRecord
  later d none = d
  later d (some e) = if precedes d e then e else d

  abbrev pub latest : String → List ComplianceDecisionRecord → Option ComplianceDecisionRecord
  latest trade [] = none
  latest trade (d ∷ decisions) =
      let rest = latest trade decisions in
      if str_eq d.trade_id trade then some (later d rest) else rest

  abbrev pub answered :
      {A : Type 0}
      → Option String
      → Result Failure A × Register
      → Register
      → Result Failure A × Register
  answered none answer s = answer
  answered (some e) answer s = (err (plain e), s)

  -- One statement or transaction, at its own moment.
  unfoldable pub query : {A : Type 0} → (Register → Result Failure A × Register) → Call A
  query statement s =
      answered (env.query_fault s.moment) (statement (record s { moment = suc s.moment }))
        (record s { moment = suc s.moment })

  abbrev pub reading : {A : Type 0} → (Register → A) → Register → Result Failure A × Register
  reading f s = (ok (f s), s)

  unfoldable pub get_oracle_progression_block : String → Call (Option OracleProgressionBlockRecord)
  unfolding query
  get_oracle_progression_block trade = query (reading (λ s. block_of trade s.blocks))

  abbrev pub mapped : Option ComplianceDecisionRecord → Call (Option ComplianceDecisionRecord)
  mapped none = pure none
  mapped (some d) = do
    block ← get_oracle_progression_block d.trade_id
    pure (some (with_block (state_or_not_blocked block) d))

  unfoldable pub get_decision : String → Call (Option ComplianceDecisionRecord)
  unfolding query ◌>>=◌ get_oracle_progression_block
  get_decision id = query (reading (λ s. find (has_decision_id id) s.decisions)) >>= mapped

  unfoldable pub get_latest_decision : String → Call (Option ComplianceDecisionRecord)
  unfolding query ◌>>=◌ get_oracle_progression_block
  get_latest_decision trade = query (reading (λ s. latest trade s.decisions)) >>= mapped

  abbrev pub status_of :
      String
      → ComplianceDecisionRecord
      → Option OracleProgressionBlockRecord
      → ComplianceTradeStatusRecord
  status_of trade d block = record {
    trade_id = trade;
    current_result = d.result;
    oracle_progression_blocked = blocked_flag (state_or_not_blocked block);
    block_state = state_or_not_blocked block;
    latest_decision_id = d.decision_id;
    latest_reason_code = d.reason_code;
    latest_provider = d.provider;
    latest_correlation_id = d.correlation_id;
    updated_at = elim block [ none ↦ d.decided_at | some b ↦ max d.decided_at b.updated_at ];
  }

  abbrev pub status_after :
      String → Option ComplianceDecisionRecord → Call (Option ComplianceTradeStatusRecord)
  status_after trade none = pure none
  status_after trade (some d) = do
    block ← get_oracle_progression_block trade
    pure (some (status_of trade d block))

  unfoldable pub get_trade_status : String → Call (Option ComplianceTradeStatusRecord)
  unfolding get_latest_decision get_oracle_progression_block ◌>>=◌
  get_trade_status trade = get_latest_decision trade >>= status_after trade

  -- The decision id is a primary key.
  abbrev pub writing_decision :
      ComplianceDecisionRecord → AuditLogEntry → Register → Result Failure (Unit {0}) × Register
  writing_decision d entry s =
      if any (has_decision_id d.decision_id) s.decisions
      then (
        err (plain "duplicate key value violates unique constraint \"compliance_decisions_pkey\""),
        s,
      )
      else (ok tt, record s { decisions = d ∷ s.decisions; audit_log = entry ∷ s.audit_log })

  abbrev pub or_failed_decision :
      String → Option ComplianceDecisionRecord → Call ComplianceDecisionRecord
  or_failed_decision id none = throw (plain ("Failed to persist compliance decision " <> id))
  or_failed_decision id (some d) = pure d

  unfoldable pub save_decision_with_audit :
      ComplianceDecisionRecord → AuditLogEntry → Call ComplianceDecisionRecord
  unfolding query get_decision ◌>>=◌
  save_decision_with_audit d entry = do
    query (writing_decision d entry)
    stored ← get_decision d.decision_id
    or_failed_decision d.decision_id stored

  abbrev pub writing_block :
      OracleProgressionBlockRecord → AuditLogEntry → Register → Result Failure (Unit {0}) × Register
  writing_block block entry s =
      (ok tt, record s { blocks = upsert_block block s.blocks; audit_log = entry ∷ s.audit_log })

  abbrev pub or_failed_block :
      String → Option OracleProgressionBlockRecord → Call OracleProgressionBlockRecord
  or_failed_block trade none =
      throw (plain ("Failed to persist oracle progression block state for trade " <> trade))
  or_failed_block trade (some block) = pure block

  unfoldable pub save_block_state_with_audit :
      OracleProgressionBlockRecord → AuditLogEntry → Call OracleProgressionBlockRecord
  unfolding query get_oracle_progression_block ◌>>=◌
  save_block_state_with_audit block entry = do
    query (writing_block block entry)
    stored ← get_oracle_progression_block block.trade_id
    or_failed_block block.trade_id stored
