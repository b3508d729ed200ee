-- ===== src/Reconciliation/Balance/Once.antt =====
-- A whole run of reconciliation/src/core/reconciler.ts: its counts, and the stored ones.
use agroasys_web3layer.Prelude.{All, ℕ, String, Bool, true, false, refl, Option, none, some, find}
use agroasys_web3layer.Exec.{pure}
use agroasys_web3layer.Exec.Triple.{Outcome, Triple, Triple-bind, Triple-pre, Triple-catch}
use agroasys_web3layer.Reconciliation.{
  ReconcileMode, ReconcileRunRow, running, completed, failed, skipped, ReconcileRunStatus,
}
use agroasys_web3layer.Reconciliation.Address.{truthy}
use agroasys_web3layer.Reconciliation.Store.{
  Ledger, Outside, is_run, insert_run, created_or_found, create_run,
}
use agroasys_web3layer.Reconciliation.Reconciler.{
  RunConfig, fresh_stats, run_trades, go_on, with_run, reconcile_once,
}
use agroasys_web3layer.Reconciliation.Balance.{
  IsBalanced, RowIsBalanced, HasBalanced, Good, RowOk, find-RowOk, counted-IsBalanced,
  complete_run-Triple, fail_run-Triple,
}
use agroasys_web3layer.Reconciliation.Loop.{
  key-Safe, Counts, pure-Counts, pure-Good, throw-Counts, query-Triple, reconcile_loop-Counts,
}

module _ (env : Outside) (config : RunConfig) where
  run_trades-Counts :
      (id : ℕ) (key : String) (mode : ReconcileMode)
      → Counts (All RowIsBalanced) IsBalanced (run_trades env config id key mode)
  unfolding run_trades
  run_trades-Counts id key mode =
      Triple-catch HasBalanced _ _
        (Triple-bind _ _ Good
          (reconcile_loop-Counts (All RowIsBalanced) IsBalanced counted-IsBalanced (λ stats b. b)
            env config config.max_trades_per_run id key 0 (fresh_stats key mode) refl)
          (λ stats.
            Triple-bind _ _ (λ _. Good stats) (complete_run-Triple env stats)
              (λ _. pure-Good (All RowIsBalanced) IsBalanced stats)))
        (λ e.
          Triple-bind _ _ (λ _. HasBalanced) (fail_run-Triple env key _)
            (λ _. throw-Counts (All RowIsBalanced) IsBalanced e))

  go_on-Counts :
      (status : ReconcileRunStatus) (key : String) (mode : ReconcileMode) (row : ReconcileRunRow)
      → RowIsBalanced row
      → Counts (All RowIsBalanced) IsBalanced (go_on env config status key mode row)
  go_on-Counts completed key mode row b = pure-Counts (All RowIsBalanced) IsBalanced _ b
  go_on-Counts running key mode row b = pure-Counts (All RowIsBalanced) IsBalanced _ b
  go_on-Counts failed key mode row b = run_trades-Counts row.id key mode
  go_on-Counts skipped key mode row b = run_trades-Counts row.id key mode

  abbrev Found : Option ReconcileRunRow × Bool → Ledger → Type 0
  Found (row, created) s = RowOk row × HasBalanced s

  with_run-Counts :
      (key : String) (mode : ReconcileMode) (run : Option ReconcileRunRow × Bool)
      → Triple (Found run) (with_run env config key mode run) Good HasBalanced
  with_run-Counts key mode (none, created) =
      Triple-pre (λ s (_, p). p) (throw-Counts (All RowIsBalanced) IsBalanced _)
  with_run-Counts key mode (some row, true) =
      Triple-pre (λ s (_, p). p) (run_trades-Counts row.id key mode)
  with_run-Counts key mode (some row, false) = record {
    at = λ s (b, p). (go_on-Counts row.status key mode row b).at s p;
  }

  pure-Found :
      (run : Option ReconcileRunRow × Bool)
      → Triple {E = String} (Found run) (pure run) Found HasBalanced
  unfolding pure
  pure-Found run = record { at = λ s p. p }

  created_or_found-Found :
      (key : String) (row : Option ReconcileRunRow)
      → Triple (λ s. RowOk row × HasBalanced s) (created_or_found env key row) Found HasBalanced
  created_or_found-Found key (some row) = pure-Found (some row, true)
  created_or_found-Found key none =
      Triple-pre (λ s (_, p). p)
        (Triple-bind _ _ (λ row s. RowOk row × HasBalanced s)
          (query-Triple (All RowIsBalanced) env _ _
            (λ now s p. (find-RowOk (is_run key) s.runs p, p)))
          (λ row. pure-Found (row, false)))

  insert_run-Ok :
      (now : ℕ) (key : String) (mode : ReconcileMode) (old : Option ReconcileRunRow) (s : Ledger)
      → HasBalanced s
      → RowOk (insert_run now key mode old s).0 × HasBalanced (insert_run now key mode old s).1
  insert_run-Ok now key mode (some row) s p = (tt, p)
  insert_run-Ok now key mode none s p = (refl, (refl, p))

  create_run-Found :
      (key : String) (mode : ReconcileMode)
      → Triple HasBalanced (create_run env key mode) Found HasBalanced
  unfolding create_run
  create_run-Found key mode =
      Triple-bind _ _ (λ row s. RowOk row × HasBalanced s)
        (query-Triple (All RowIsBalanced) env _
          (λ now s. insert_run now key mode (find (is_run key) s.runs) s)
          (λ now s p. insert_run-Ok now key mode (find (is_run key) s.runs) s p))
        (created_or_found-Found key)

  -- Where every stored run counts as many drifts as its four severities together, a run leaves it
  -- so, whether it returns or throws, and what it returns counts as many, whatever the indexer,
  -- the chain and the database do.
  pub reconcile_once-IsBalanced :
      (mode : ReconcileMode) (key_override : Option String) (s : Ledger)
      → HasBalanced s
      → Outcome Good HasBalanced
          (reconcile_once env config mode key_override s).0
          (reconcile_once env config mode key_override s).1
  unfolding reconcile_once
  reconcile_once-IsBalanced mode key_override s balanced =
      (Triple-bind _ _ (λ _. HasBalanced)
          (key-Safe (All RowIsBalanced) env config mode (truthy key_override))
          (λ key. Triple-bind _ _ Found (create_run-Found key mode) (with_run-Counts key mode))).at
        s balanced
