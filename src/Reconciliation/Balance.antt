-- ===== src/Reconciliation/Balance.antt =====
-- The counts of the runs of reconciliation/src/core/reconciler.ts.
pub mod Once
use agroasys_web3layer.Prelude.{
  ℕ, zero, suc, ◌+◌, ◌-◌, min, String, Bool, true, false, ◌≡◌, refl, ap, inl, inr, Option, none,
  some, List, [], ◌∷◌, length, ltb, map, find, All, arith, Bool-cases, if◌then◌else◌,
}
use agroasys_web3layer.Exec.{Result, ok, err, Exec, pure, throw, lift, modify, catch, ◌>>=◌}
use agroasys_web3layer.Exec.Keeps.{Keeps, Keeps-pure, Keeps-modify, Keeps-throw}
use agroasys_web3layer.Exec.Triple.{
  Outcome, Triple, Keeps-Triple, Triple-bind, Triple-lift, Triple-pre, Triple-catch, Triple-if,
}
use agroasys_web3layer.Reconciliation.{
  DriftSeverity, critical, high, medium, low, DriftFinding, IndexedTradeRecord, ReconcileMode,
  SeverityCounts, RunStats, ReconcileRunRow, running, completed, failed, skipped,
  ReconcileRunStatus,
}
use agroasys_web3layer.Reconciliation.Store.{
  Ledger, Outside, Act, tick, is_run, new_run, insert_run, completed_row, failed_row, answered,
  query, created_or_found, create_run, upsert_drift, upsert_run_trade_scope, complete_run, fail_run,
}
use agroasys_web3layer.Reconciliation.Reconciler.{
  RunConfig, bump, counted, one_more_trade, fresh_stats, is_critical, notify_critical_drift,
  read_clock, generate_run_key, key_or_generated, record_findings, read_trade, reconcile_trade,
  reconcile_trades, fetch, after_batch, reconcile_loop, run_failed, run_trades, go_on, with_run,
  reconcile_once,
}
use agroasys_web3layer.Reconciliation.Loop.{query-Triple}

abbrev pub sum : SeverityCounts → ℕ
sum c = c.critical_count + c.high_count + c.medium_count + c.low_count

abbrev pub IsBalanced : RunStats → Type 0
IsBalanced stats = stats.drift_count ≡ sum stats.severity_counts

abbrev pub RowIsBalanced : ReconcileRunRow → Type 0
RowIsBalanced row = row.drift_count ≡ sum row.severity_counts

-- Every stored run counts as many drifts as its four severities together.
abbrev pub HasBalanced : Ledger → Type 0
HasBalanced s = All RowIsBalanced s.runs

abbrev pub Good : RunStats → Ledger → Type 0
Good stats s = IsBalanced stats × HasBalanced s

All-map :
    (f : ReconcileRunRow → ReconcileRunRow) (rows : List ReconcileRunRow)
    → ((row : ReconcileRunRow) → RowIsBalanced row → RowIsBalanced (f row))
    → All RowIsBalanced rows
    → All RowIsBalanced (map f rows)
All-map f [] k h = tt
All-map f (row ∷ rows) k (h, hs) = (k row h, All-map f rows k hs)

abbrev RowOk : Option ReconcileRunRow → Type 0
RowOk none = Unit
RowOk (some row) = RowIsBalanced row

find-RowOk :
    (p : ReconcileRunRow → Bool) (rows : List ReconcileRunRow)
    → All RowIsBalanced rows
    → RowOk (find p rows)
find-RowOk p [] h = tt
find-RowOk p (row ∷ rows) (h, hs) = elim (Bool-cases (p row)) [
  | inl is ↦ rw (is, find) h
  | inr is_not ↦ rw (is_not, find) (find-RowOk p rows hs)
]

sum-bump : (v : DriftSeverity) (c : SeverityCounts) → sum (bump v c) ≡ suc (sum c)
sum-bump critical c = omega arith
sum-bump high c = omega arith
sum-bump medium c = omega arith
sum-bump low c = omega arith

counted-IsBalanced :
    (f : DriftFinding) (stats : RunStats) → IsBalanced stats → IsBalanced (counted f stats)
counted-IsBalanced f stats h = omega (arith, h, sum-bump f.severity stats.severity_counts)

completed_row-RowIsBalanced :
    (now : ℕ) (stats : RunStats) (row : ReconcileRunRow)
    → IsBalanced stats
    → RowIsBalanced row
    → RowIsBalanced (completed_row now stats row)
completed_row-RowIsBalanced now stats row b h = elim (Bool-cases (is_run stats.run_key row)) [
  | inl is ↦ rw (is, completed_row) b
  | inr is_not ↦ rw (is_not, completed_row) h
]

failed_row-RowIsBalanced :
    (now : ℕ) (key message : String) (row : ReconcileRunRow)
    → RowIsBalanced row
    → RowIsBalanced (failed_row now key message row)
failed_row-RowIsBalanced now key message row h = elim (Bool-cases (is_run key row)) [
  | inl is ↦ rw (is, failed_row) h
  | inr is_not ↦ rw (is_not, failed_row) h
]

module _ (env : Outside) where
  complete_run-Triple :
      (stats : RunStats)
      → Triple (Good stats) (complete_run env stats) (λ _. Good stats) HasBalanced
  unfolding complete_run
  complete_run-Triple stats = record {
    at = λ s (b, p).
        (query-Triple (All RowIsBalanced) env (λ _. Good stats) _
            (λ now u h.
              (b, All-map _ u.runs (λ row. completed_row-RowIsBalanced now stats row b) h))).at
          s p;
  }

  fail_run-Triple :
      (key message : String)
      → Triple HasBalanced (fail_run env key message) (λ _. HasBalanced) HasBalanced
  unfolding fail_run
  fail_run-Triple key message =
      query-Triple (All RowIsBalanced) env (λ _. HasBalanced) _
        (λ now u h. All-map _ u.runs (λ row. failed_row-RowIsBalanced now key message row) h)
