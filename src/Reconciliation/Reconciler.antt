-- ===== src/Reconciliation/Reconciler.antt =====
-- reconciliation/src/core/reconciler.ts. The indexer and the chain are `fetch_trades` and
-- `sdk_get_trade`; the calls of the notifier are kept as alerts.
use agroasys_web3layer.Prelude.{
  ℕ, zero, suc, ◌+◌, ◌-◌, ◌/◌, min, String, Bool, true, false, Option, none, some, List, [], ◌∷◌,
  length, ltb, decimal, is_empty, if◌then◌else◌, ◌<>◌,
}
use agroasys_web3layer.Exec.{Result, ok, err, pure, throw, lift, modify, catch, ◌>>=◌, ◌>>◌}
use agroasys_web3layer.Reconciliation.{
  DriftSeverity, critical, high, medium, low, DriftFinding, IndexedTradeRecord, Trade,
  ReconcileMode, once, daemon, ReconcileRunStatus, running, completed, failed, skipped,
  SeverityCounts, RunStats, ReconcileRunRow,
}
use agroasys_web3layer.Reconciliation.Address.{truthy}
use agroasys_web3layer.Reconciliation.Classifier.{classify_drifts}
use agroasys_web3layer.Reconciliation.Store.{
  Ledger, Outside, Act, tick, zero_counts, code_name, create_run, upsert_drift,
  upsert_run_trade_scope, complete_run, fail_run,
}

pub record RunConfig : Type 0 where
  pub daemon_interval_ms : ℕ
  pub batch_size : ℕ
  pub max_trades_per_run : ℕ

abbrev pub bump : DriftSeverity → SeverityCounts → SeverityCounts
bump critical c = record c { critical_count = suc c.critical_count }
bump high c = record c { high_count = suc c.high_count }
bump medium c = record c { medium_count = suc c.medium_count }
bump low c = record c { low_count = suc c.low_count }

abbrev pub counted : DriftFinding → RunStats → RunStats
counted f stats = record stats {
  drift_count = suc stats.drift_count;
  severity_counts = bump f.severity stats.severity_counts;
}

abbrev pub one_more_trade : RunStats → RunStats
one_more_trade stats = record stats { total_trades = suc stats.total_trades }

abbrev pub fresh_stats : String → ReconcileMode → RunStats
fresh_stats key mode = record {
  run_key = key;
  mode = mode;
  total_trades = 0;
  drift_count = 0;
  severity_counts = zero_counts;
  status = completed;
  skipped_reason = none;
}

abbrev pub skipped_stats : String → ReconcileMode → ReconcileRunRow → String → RunStats
skipped_stats key mode row reason = record {
  run_key = key;
  mode = mode;
  total_trades = row.total_trades;
  drift_count = row.drift_count;
  severity_counts = row.severity_counts;
  status = skipped;
  skipped_reason = some reason;
}

-- `error?.message || text`
abbrev message_or : String → String → String
message_or text message = if is_empty message then text else message

alert : String → DriftFinding → Ledger → Ledger
alert key f s = record s {
  alerts =
      record {
        dedup_key = "reconciliation:critical:" <> f.trade_id <> ":" <> code_name f.mismatch_code;
        run_key = key;
        finding = f;
      }
      ∷ s.alerts;
}

abbrev pub is_critical : DriftSeverity → Bool
is_critical critical = true
is_critical high = false
is_critical medium = false
is_critical low = false

unfoldable pub notify_critical_drift : String → DriftFinding → Act Unit
unfolding alert
notify_critical_drift key f = if is_critical f.severity then modify (alert key f) else pure tt

-- The trade that was read, or the error's text.
abbrev onchain_trade : Result String Trade → Option Trade
onchain_trade (ok t) = some t
onchain_trade (err e) = none

abbrev read_error : Result String Trade → Option String
read_error (ok t) = none
read_error (err e) = some (message_or "Unknown on-chain read error" e)

module _ (env : Outside) (config : RunConfig) where
  unfoldable pub read_clock : {A : Type 0} → (Outside → ℕ → A) → Act A
  read_clock ask s = (ok (ask env s.moment), tick s)

  unfoldable pub generate_run_key : ReconcileMode → Act String
  unfolding read_clock
  generate_run_key daemon = do
    now ← read_clock (λ e. e.now)
    pure ("daemon-" <> decimal (now / config.daemon_interval_ms))
  generate_run_key once = do now ← read_clock (λ e. e.now_iso); pure ("once-" <> now)

  -- `runKeyOverride || generateRunKey(mode)`
  abbrev pub key_or_generated : ReconcileMode → Option String → Act String
  key_or_generated mode none = generate_run_key mode
  key_or_generated mode (some key) = pure key

  -- The `for` over the findings of a trade.
  unfoldable pub record_findings : ℕ → String → List DriftFinding → RunStats → Act RunStats
  record_findings id key [] stats = pure stats
  record_findings id key (f ∷ fs) stats = do
    upsert_drift env id key f
    notify_critical_drift key f
    record_findings id key fs (counted f stats)

  unfoldable pub read_trade : String → Act (Result String Trade)
  read_trade trade_id s = (ok (env.sdk_get_trade s.moment trade_id), tick s)

  unfoldable pub reconcile_trade : ℕ → String → IndexedTradeRecord → RunStats → Act RunStats
  unfolding read_trade
  reconcile_trade id key trade stats = do
    upsert_run_trade_scope env id key trade.trade_id
    onchain ← read_trade trade.trade_id
    findings ← lift (
        classify_drifts env.ethers (record {
          indexed_trade = trade;
          onchain_trade = onchain_trade onchain;
          onchain_read_error = read_error onchain;
        }))
    record_findings id key findings (one_more_trade stats)

  -- The `for` over the trades of a batch.
  unfoldable pub reconcile_trades : ℕ → String → List IndexedTradeRecord → RunStats → Act RunStats
  unfolding reconcile_trade
  reconcile_trades id key [] stats = pure stats
  reconcile_trades id key (t ∷ ts) stats = do
    stats' ← reconcile_trade id key t stats
    reconcile_trades id key ts stats'

  unfoldable pub fetch : ℕ → ℕ → Act (List IndexedTradeRecord)
  fetch limit offset s = (env.fetch_trades s.moment limit offset, tick s)

  -- The rest of a round, with the loop's next round.
  unfoldable pub after_batch :
      (ℕ → RunStats → Act RunStats)
      → ℕ
      → String
      → ℕ
      → List IndexedTradeRecord
      → ℕ
      → RunStats
      → Act RunStats
  unfolding reconcile_trades
  after_batch next id key limit [] offset stats = pure stats
  after_batch next id key limit (t ∷ ts) offset stats = do
    stats' ← reconcile_trades id key (t ∷ ts) stats
    if ltb (length (t ∷ ts)) limit then pure stats' else next (offset + length (t ∷ ts)) stats'

  -- The `while`. The fuel counts rounds.
  unfoldable pub reconcile_loop : ℕ → ℕ → String → ℕ → RunStats → Act RunStats
  unfolding fetch after_batch
  reconcile_loop zero id key offset stats = pure stats
  reconcile_loop (suc fuel) id key offset stats =
      let limit = min config.batch_size (config.max_trades_per_run - stats.total_trades) in
      let next = reconcile_loop fuel id key in
      if ltb stats.total_trades config.max_trades_per_run
      then (do trades ← fetch limit offset; after_batch next id key limit trades offset stats)
      else pure stats

  -- The `catch`: the run is marked as failed and the error thrown again.
  abbrev pub run_failed : String → String → Act RunStats
  run_failed key e = fail_run env key (message_or "Unknown reconciliation failure" e) >> throw e

  unfoldable pub run_trades : ℕ → String → ReconcileMode → Act RunStats
  unfolding reconcile_loop
  run_trades id key mode =
      catch
        (do
          stats ← reconcile_loop config.max_trades_per_run id key 0 (fresh_stats key mode)
          complete_run env stats
          pure stats)
        (run_failed key)

  -- By the status of a row that was there before.
  abbrev pub go_on : ReconcileRunStatus → String → ReconcileMode → ReconcileRunRow → Act RunStats
  go_on completed key mode row = pure (skipped_stats key mode row "run_key already completed")
  go_on running key mode row = pure (skipped_stats key mode row "run_key currently running")
  go_on failed key mode row = run_trades row.id key mode
  go_on skipped key mode row = run_trades row.id key mode

  -- Without a row, `run.row.status` throws.
  abbrev pub with_run : String → ReconcileMode → Option ReconcileRunRow × Bool → Act RunStats
  with_run key mode (none, created) = throw "Cannot read properties of undefined (reading 'status')"
  with_run key mode (some row, true) = run_trades row.id key mode
  with_run key mode (some row, false) = go_on row.status key mode row

  unfoldable pub reconcile_once : ReconcileMode → Option String → Act RunStats
  unfolding generate_run_key run_trades
  reconcile_once mode key_override = do
    key ← key_or_generated mode (truthy key_override)
    run ← create_run env key mode
    with_run key mode run
