-- ===== src/Reconciliation/Tests.antt =====
-- A trade that agrees with the chain, one whose amounts do not, and runs over them.
use agroasys_web3layer.Prelude.{
  ℕ, String, true, ◌≡◌, ◌↔◌, refl, Option, none, some, List, [], ◌∷◌, arith, length,
}
use agroasys_web3layer.Exec.{Result, ok, err, catch, modify, ◌>>=◌, pure, lift}
use agroasys_web3layer.Exec.Triple.{Outcome}
use agroasys_web3layer.Reconciliation.{
  IndexedTradeRecord, Trade, CompareInput, Addresses, ReconcileMode, once, daemon, failed,
  completed, skipped, ReconcileRunRow, RunStats,
}
use agroasys_web3layer.Reconciliation.Address.{truthy}
use agroasys_web3layer.Reconciliation.Classifier.{
  classify_drifts, with_arrival, compare_status, compare_amounts, compare_amount, compare_hash,
}
use agroasys_web3layer.Auth.Texts.{to_lower_case}
use agroasys_web3layer.Reconciliation.Agreement.{Agrees, classify_drifts_iff}
use agroasys_web3layer.Reconciliation.Store.{
  Outside, Ledger, tick, query, create_run, upsert_drift, upsert_run_trade_scope, complete_run,
  zero_counts,
}
use agroasys_web3layer.Reconciliation.Reconciler.{
  RunConfig, fresh_stats, reconcile_loop, reconcile_once, run_trades, fetch, after_batch,
  reconcile_trades, reconcile_trade, read_trade, record_findings, notify_critical_drift,
}
use agroasys_web3layer.Reconciliation.Balance.{HasBalanced, Good}
use agroasys_web3layer.Reconciliation.Balance.Once.{reconcile_once-IsBalanced}
use agroasys_web3layer.Reconciliation.Again.Every.{run_all, reconcile_once-again}
use agroasys_web3layer.Reconciliation.Rounds.{reconcile_loop-enough}

abbrev plain : Addresses
plain = record { is_address = λ v. true; get_address = λ v. v }

abbrev indexed : IndexedTradeRecord
indexed = record {
  trade_id = "7";
  buyer = "0x00000000000000000000000000000000000000b1";
  supplier = "0x00000000000000000000000000000000000000c1";
  status = "LOCKED";
  total_amount_locked = 100;
  logistics_amount = 10;
  platform_fees_amount = 5;
  supplier_first_tranche = 34;
  supplier_second_tranche = 51;
  ricardian_hash = "0xAB";
  created_at = some "2025-01-01T00:00:00.000Z";
  arrival_timestamp = none;
}

abbrev onchain : Trade
onchain = record {
  trade_id = "7";
  buyer = "0x00000000000000000000000000000000000000b1";
  supplier = "0x00000000000000000000000000000000000000c1";
  status = 0;
  total_amount_locked = 100;
  logistics_amount = 10;
  platform_fees_amount = 5;
  supplier_first_tranche = 34;
  supplier_second_tranche = 51;
  ricardian_hash = "0xab";
  created_at = some "2025-01-01T00:00:00.000Z";
  arrival_timestamp = none;
}

abbrev drifted : Trade
drifted = record onchain { status = 1; logistics_amount = 11; platform_fees_amount = 4 }

abbrev input : CompareInput
input = record { indexed_trade = indexed; onchain_trade = some onchain; onchain_read_error = none }

agree : classify_drifts plain input ≡ ok []
unfolding classify_drifts with_arrival compare_status compare_amounts compare_amount compare_hash
    to_lower_case
agree = refl

classify_drifts_iff_example :
    (classify_drifts plain input ≡ ok [])
    ↔ Agrees plain input.indexed_trade input.onchain_trade (truthy input.onchain_read_error)
classify_drifts_iff_example = classify_drifts_iff plain input

-- One trade is indexed, and the chain's amounts and status differ from it.
abbrev outside : Outside
outside = record {
  query_fault = λ n. none;
  now = λ n. 1000000;
  now_iso = λ n. "2025-01-01T00:00:00.000Z";
  fetch_trades = λ n limit offset. ok (indexed ∷ []);
  sdk_get_trade = λ n trade_id. ok drifted;
  ethers = plain;
}

abbrev config : RunConfig
config = record { daemon_interval_ms = 1000; batch_size = 50; max_trades_per_run = 3 }

abbrev failed_run : ReconcileRunRow
failed_run = record {
  id = 1;
  run_key = "daemon-1000";
  mode = daemon;
  status = failed;
  started_at = 1;
  completed_at = some 2;
  total_trades = 0;
  drift_count = 0;
  severity_counts = zero_counts;
  error_message = some "Indexer request failed";
}

abbrev ledger : Ledger
ledger = record {
  runs = failed_run ∷ [];
  next_run_id = 2;
  run_trades = [];
  drifts = [];
  alerts = [];
  moment = 0;
}

abbrev drift_count : Result String RunStats → ℕ
drift_count (ok stats) = stats.drift_count
drift_count (err e) = 0

three_drifts : drift_count (reconcile_once outside config daemon (some "daemon-1000") ledger).0 ≡ 3
unfolding reconcile_once ◌>>=◌ pure create_run query catch run_trades reconcile_loop fetch
    after_batch reconcile_trades reconcile_trade read_trade record_findings upsert_run_trade_scope
    upsert_drift notify_critical_drift modify lift complete_run classify_drifts with_arrival
    compare_status compare_amounts compare_amount compare_hash to_lower_case
three_drifts = refl

two_alerts : length (reconcile_once outside config daemon (some "daemon-1000") ledger).1.alerts ≡ 2
unfolding reconcile_once ◌>>=◌ pure create_run query catch run_trades reconcile_loop fetch
    after_batch reconcile_trades reconcile_trade read_trade record_findings upsert_run_trade_scope
    upsert_drift notify_critical_drift modify lift complete_run classify_drifts with_arrival
    compare_status compare_amounts compare_amount compare_hash to_lower_case
two_alerts = refl

reconcile_once-IsBalanced_example :
    Outcome Good HasBalanced
      (reconcile_once outside config daemon none ledger).0
      (reconcile_once outside config daemon none ledger).1
reconcile_once-IsBalanced_example =
    reconcile_once-IsBalanced outside config daemon none ledger (refl, tt)

reconcile_loop-enough_example :
    reconcile_loop outside config 3 1 "k" 0 (fresh_stats "k" daemon) ledger
    ≡ reconcile_loop outside config 9 1 "k" 0 (fresh_stats "k" daemon) ledger
reconcile_loop-enough_example =
    reconcile_loop-enough outside config 3 9 1 "k" 0 (fresh_stats "k" daemon) ledger (omega arith)
      (omega arith)

abbrev final_stats : RunStats
final_stats = record {
  run_key = "daemon-1000";
  mode = daemon;
  total_trades = 1;
  drift_count = 3;
  severity_counts = record { critical_count = 2; high_count = 1; medium_count = 0; low_count = 0 };
  status = completed;
  skipped_reason = none;
}

abbrev after : Ledger
after = (reconcile_once outside config daemon (some "daemon-1000") ledger).1

run_ends :
    reconcile_once outside config daemon (some "daemon-1000") ledger ≡ (ok final_stats, after)
unfolding reconcile_once ◌>>=◌ pure create_run query catch run_trades reconcile_loop fetch
    after_batch reconcile_trades reconcile_trade read_trade record_findings upsert_run_trade_scope
    upsert_drift notify_critical_drift modify lift complete_run classify_drifts with_arrival
    compare_status compare_amounts compare_amount compare_hash to_lower_case
run_ends = refl

-- Runs of other keys and of the key itself in between.
abbrev between : List (ReconcileMode × Option String)
between = (once, some "once-x") ∷ (daemon, some "daemon-1000") ∷ []

reconcile_once-again_example :
    let later = run_all outside config between after in
    reconcile_once outside config daemon (some "daemon-1000") later ≡ (
      ok record final_stats { status = skipped; skipped_reason = some "run_key already completed" },
      tick (tick later),
    )
reconcile_once-again_example =
    reconcile_once-again "daemon-1000" outside config daemon daemon between ledger after final_stats
      refl run_ends refl refl refl
