-- ===== src/Reconciliation/Store.antt =====
-- reconciliation/src/database/queries.ts over the tables of database/schema.sql.
use agroasys_web3layer.Prelude.{
  ℕ, suc, String, Bool, true, false, ◌&&◌, Option, none, some, List, ◌∷◌, str_eq, find, any, map,
  if◌then◌else◌,
}
use agroasys_web3layer.Exec.{Result, ok, err, Exec, pure, ◌>>=◌}
use agroasys_web3layer.Reconciliation.{
  DriftCode, DriftFinding, IndexedTradeRecord, Trade, Addresses, ReconcileMode, running, failed,
  SeverityCounts, RunStats, ReconcileRunRow, onchain_read_error, onchain_trade_missing,
  status_mismatch, participant_mismatch, amount_mismatch, hash_mismatch, arrival_timestamp_mismatch,
  indexed_invalid_address, onchain_invalid_address,
}

-- A row of reconcile_drifts, its finding's columns kept together.
pub record DriftRow : Type 0 where
  pub run_id : ℕ
  pub run_key : String
  pub finding : DriftFinding
  pub occurrences : ℕ
  pub created_at : ℕ
  pub updated_at : ℕ

-- The call of the notifier: its deduplication key, the run's key and the finding.
pub record Alert : Type 0 where
  pub dedup_key : String
  pub run_key : String
  pub finding : DriftFinding

-- The tables, the alerts that were passed to the notifier, the newest first, and the moment.
pub record Ledger : Type 0 where
  pub runs : List ReconcileRunRow
  pub next_run_id : ℕ
  -- run_id, run_key and trade_id of reconcile_run_trades
  pub run_trades : List (ℕ × String × String)
  pub drifts : List DriftRow
  pub alerts : List Alert
  pub moment : ℕ

-- Each field is asked at a moment.
pub record Outside : Type 0 where
  -- the database is out of reach, with the error's text
  pub query_fault : ℕ → Option String
  -- `Date.now()`, and `new Date().toISOString()`
  pub now : ℕ → ℕ
  pub now_iso : ℕ → String
  -- `fetchTrades(limit, offset)` of the indexer's client
  pub fetch_trades : ℕ → ℕ → ℕ → Result String (List IndexedTradeRecord)
  -- `getTrade(tradeId)` of the oracle SDK
  pub sdk_get_trade : ℕ → String → Result String Trade
  pub ethers : Addresses

abbrev pub Act : Type 0 → Type 0
Act A = Exec Ledger String A

abbrev pub tick : Ledger → Ledger
tick s = record s { moment = suc s.moment }

abbrev pub zero_counts : SeverityCounts
zero_counts = record { critical_count = 0; high_count = 0; medium_count = 0; low_count = 0 }

abbrev pub is_run : String → ReconcileRunRow → Bool
is_run key row = str_eq row.run_key key

abbrev pub new_run : ℕ → ℕ → String → ReconcileMode → ReconcileRunRow
new_run id now key mode = record {
  id = id;
  run_key = key;
  mode = mode;
  status = running;
  started_at = now;
  completed_at = none;
  total_trades = 0;
  drift_count = 0;
  severity_counts = zero_counts;
  error_message = none;
}

-- `INSERT INTO reconcile_runs … ON CONFLICT (run_key) DO NOTHING RETURNING *`
abbrev pub insert_run :
    ℕ → String → ReconcileMode → Option ReconcileRunRow → Ledger → Option ReconcileRunRow × Ledger
insert_run now key mode (some row) s = (none, s)
insert_run now key mode none s = (
  some (new_run s.next_run_id now key mode),
  record s { runs = new_run s.next_run_id now key mode ∷ s.runs; next_run_id = suc s.next_run_id },
)

abbrev pub completed_row : ℕ → RunStats → ReconcileRunRow → ReconcileRunRow
completed_row now stats row =
    if is_run stats.run_key row
    then record row {
      status = stats.status;
      completed_at = some now;
      total_trades = stats.total_trades;
      drift_count = stats.drift_count;
      severity_counts = stats.severity_counts;
    }
    else row

abbrev pub failed_row : ℕ → String → String → ReconcileRunRow → ReconcileRunRow
failed_row now key message row =
    if is_run key row
    then record row { status = failed; completed_at = some now; error_message = some message }
    else row

abbrev pub code_name : DriftCode → String
code_name onchain_read_error = "ONCHAIN_READ_ERROR"
code_name onchain_trade_missing = "ONCHAIN_TRADE_MISSING"
code_name status_mismatch = "STATUS_MISMATCH"
code_name participant_mismatch = "PARTICIPANT_MISMATCH"
code_name amount_mismatch = "AMOUNT_MISMATCH"
code_name hash_mismatch = "HASH_MISMATCH"
code_name arrival_timestamp_mismatch = "ARRIVAL_TIMESTAMP_MISMATCH"
code_name indexed_invalid_address = "INDEXED_INVALID_ADDRESS"
code_name onchain_invalid_address = "ONCHAIN_INVALID_ADDRESS"

-- The row of the unique key (run_key, trade_id, mismatch_code, compared_field).
abbrev is_drift : String → DriftFinding → DriftRow → Bool
is_drift key f row =
    str_eq row.run_key key
    && str_eq row.finding.trade_id f.trade_id
    && str_eq (code_name row.finding.mismatch_code) (code_name f.mismatch_code)
    && str_eq row.finding.compared_field f.compared_field

abbrev seen_again : ℕ → ℕ → String → DriftFinding → DriftRow → DriftRow
seen_again now id key f row =
    if is_drift key f row
    then record row {
      run_id = id;
      finding = f;
      occurrences = suc row.occurrences;
      updated_at = now;
    }
    else row

abbrev upsert_row : ℕ → ℕ → String → DriftFinding → List DriftRow → List DriftRow
upsert_row now id key f rows =
    if any (is_drift key f) rows
    then map (seen_again now id key f) rows
    else record {
      run_id = id;
      run_key = key;
      finding = f;
      occurrences = 1;
      created_at = now;
      updated_at = now;
    }
      ∷ rows

abbrev is_trade_scope : String → String → ℕ × String × String → Bool
is_trade_scope key trade_id (id, key', trade_id') = str_eq key' key && str_eq trade_id' trade_id

module _ (env : Outside) where
  -- A statement that is answered, or the database's error.
  abbrev pub answered :
      {A : Type 0} → Option String → A × Ledger → Ledger → Result String A × Ledger
  answered none (a, s') s = (ok a, tick s')
  answered (some e) r s = (err e, tick s)

  unfoldable pub query : {A : Type 0} → (ℕ → Ledger → A × Ledger) → Act A
  query statement s = answered (env.query_fault s.moment) (statement (env.now s.moment) s) s

  abbrev pub created_or_found :
      String → Option ReconcileRunRow → Act (Option ReconcileRunRow × Bool)
  created_or_found key (some row) = pure (some row, true)
  created_or_found key none = do
    existing ← query (λ now s. (find (is_run key) s.runs, s))
    pure (existing, false)

  -- The row, and whether it was created.
  unfoldable pub create_run : String → ReconcileMode → Act (Option ReconcileRunRow × Bool)
  unfolding query pure
  create_run key mode = do
    inserted ← query (λ now s. insert_run now key mode (find (is_run key) s.runs) s)
    created_or_found key inserted

  unfoldable pub upsert_drift : ℕ → String → DriftFinding → Act Unit
  upsert_drift id key f =
      query (λ now s. (tt, record s { drifts = upsert_row now id key f s.drifts }))

  unfoldable pub upsert_run_trade_scope : ℕ → String → String → Act Unit
  upsert_run_trade_scope id key trade_id = query (λ now s. (
    tt,
    record s {
      run_trades =
          if any (is_trade_scope key trade_id) s.run_trades
          then s.run_trades
          else (id, key, trade_id) ∷ s.run_trades;
    },
  ))

  unfoldable pub complete_run : RunStats → Act Unit
  complete_run stats =
      query (λ now s. (tt, record s { runs = map (completed_row now stats) s.runs }))

  unfoldable pub fail_run : String → String → Act Unit
  fail_run key message =
      query (λ now s. (tt, record s { runs = map (failed_row now key message) s.runs }))
