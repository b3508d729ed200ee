-- ===== src/Reconciliation/Again/Every.antt =====
-- Every later run of a key of reconciliation/src/core/reconciler.ts whose run completed.
use mathlib.Core.Path.{subst}
use agroasys_web3layer.Prelude.{
  str_eq, eq_iff, is_empty, ℕ, suc, String, Bool, false, ◌≡◌, refl, inl, inr, Option, none, some,
  List, [], ◌∷◌, find, Bool-cases,
}
use agroasys_web3layer.Exec.{Result, ok, err, pure, ◌>>=◌}
use agroasys_web3layer.Exec.Triple.{Triple-pre, Outcome, Triple, Triple-bind}
use agroasys_web3layer.Reconciliation.{
  ReconcileMode, RunStats, ReconcileRunRow, ReconcileRunStatus, running, completed, failed, skipped,
}
use agroasys_web3layer.Reconciliation.Store.{
  tick, query, Ledger, Outside, is_run, insert_run, created_or_found, create_run,
}
use agroasys_web3layer.Reconciliation.Reconciler.{
  key_or_generated, reconcile_once, RunConfig, go_on, with_run,
}
use agroasys_web3layer.Reconciliation.Address.{truthy}
use agroasys_web3layer.Reconciliation.Loop.{key-Safe, query-Triple}
use agroasys_web3layer.Reconciliation.Again.{IsStored, Ends, Anything, ran-Ends}
use agroasys_web3layer.Reconciliation.Again.Others.{
  Has, HasIn, KeepsRow, pure-KeepsRow, create_run-KeepsRow, with_run-KeepsRow,
}

module _ (env : Outside) (config : RunConfig) where
  -- Later runs, of the key or of others, with the keys that the callers give.
  abbrev pub run_all : List (ReconcileMode × Option String) → Ledger → Ledger
  run_all [] s = s
  run_all ((mode, key_override) ∷ runs) s =
      run_all runs (reconcile_once env config mode key_override s).1

-- The row of the key.
module _ (key : String) (row : ReconcileRunRow) where
  module _ (env : Outside) (config : RunConfig) where
    -- A run of the key itself, whose row is completed.
    module _ (mode : ReconcileMode) (done : row.status ≡ completed) where
      abbrev IsFound : Option ReconcileRunRow × Bool → Ledger → Type 0
      IsFound run s = (run ≡ (some row, false)) × HasIn key row s

      abbrev IsTaken : Option ReconcileRunRow → Ledger → Type 0
      IsTaken inserted s = (inserted ≡ none) × HasIn key row s

      lookup-IsFound :
          (inserted : Option ReconcileRunRow)
          → Triple (IsTaken inserted) (created_or_found env key inserted) IsFound (HasIn key row)
      unfolding pure
      lookup-IsFound (some r) = record { at = λ s (e, h). let bad : ⊥ = cc in elim bad [ ] }
      lookup-IsFound none =
          Triple-pre (λ s (e, h). h)
            (Triple-bind _ _ (λ o s. (o ≡ some row) × HasIn key row s)
              (query-Triple (Has key row) env _ _ (λ now s h. (h, h)))
              (λ o. record { at = λ s (e, h). (rw e refl, h) }))

      insert_run-IsTaken :
          (now : ℕ) (s : Ledger)
          → HasIn key row s
          → let r = insert_run now key mode (find (is_run key) s.runs) s in IsTaken r.0 (tick r.1)
      insert_run-IsTaken now s h = rw h (refl, h)

      create_run-IsFound : Triple (HasIn key row) (create_run env key mode) IsFound (HasIn key row)
      unfolding create_run
      create_run-IsFound =
          Triple-bind _ _ IsTaken
            (query-Triple (Has key row) env IsTaken
              (λ now s. insert_run now key mode (find (is_run key) s.runs) s)
              (λ now s h. insert_run-IsTaken now s h))
            lookup-IsFound

      go_on-completed :
          (status : ReconcileRunStatus)
          → status ≡ completed
          → KeepsRow key row env config (go_on env config status key mode row)
      go_on-completed completed at = pure-KeepsRow key row env config _
      go_on-completed running at = let bad : ⊥ = cc in elim bad [ ]
      go_on-completed failed at = let bad : ⊥ = cc in elim bad [ ]
      go_on-completed skipped at = let bad : ⊥ = cc in elim bad [ ]

      with_run-IsFound :
          (run : Option ReconcileRunRow × Bool)
          → Triple
              (IsFound run)
              (with_run env config key mode run)
              (λ _. HasIn key row)
              (HasIn key row)
      with_run-IsFound run = record {
        at = λ s (e, h). rw e ((go_on-completed row.status done).at s h);
      }

    run_of-KeepsRow :
        (k : String) (mode : ReconcileMode)
        → row.status ≡ completed
        → KeepsRow key row env config (create_run env k mode >>= with_run env config k mode)
    run_of-KeepsRow k mode done = elim (Bool-cases (str_eq k key)) [
      | inl is ↦
          let same : k ≡ key = (eq_iff k key).0 is in
          rw same (
            Triple-bind (create_run env key mode) (with_run env config key mode) (IsFound mode done)
              (create_run-IsFound mode done) (with_run-IsFound mode done))
      | inr other ↦
          Triple-bind (create_run env k mode) (with_run env config k mode) (λ _. HasIn key row)
            (create_run-KeepsRow key row env config k mode other)
            (with_run-KeepsRow key row env config k mode other)
    ]

    reconcile_once-KeepsRow :
        (mode : ReconcileMode) (key_override : Option String)
        → row.status ≡ completed
        → KeepsRow key row env config (reconcile_once env config mode key_override)
    unfolding reconcile_once
    reconcile_once-KeepsRow mode key_override done =
        Triple-bind (key_or_generated env config mode (truthy key_override)) _ (λ _. HasIn key row)
          (key-Safe (Has key row) env config mode (truthy key_override))
          (λ k. run_of-KeepsRow k mode done)

    kept :
        {A : Type 0} (r : Result String A) (s : Ledger)
        → Outcome (λ _. HasIn key row) (HasIn key row) r s
        → HasIn key row s
    kept (ok a) s h = h
    kept (err e) s h = h

    run_all-HasIn :
        (runs : List (ReconcileMode × Option String)) (s : Ledger)
        → row.status ≡ completed
        → HasIn key row s
        → HasIn key row (run_all env config runs s)
    run_all-HasIn [] s done h = h
    run_all-HasIn ((mode, key_override) ∷ runs) s done h =
        let ran = reconcile_once env config mode key_override s in
        run_all-HasIn runs ran.1 done
          (kept ran.0 ran.1 ((reconcile_once-KeepsRow mode key_override done).at s h))

module _ (key : String) (env : Outside) (config : RunConfig) where
  skips :
      (mode : ReconcileMode) (s : Ledger) (stats : RunStats)
      → is_empty key ≡ false
      → IsStored stats (find (is_run key) s.runs)
      → env.query_fault s.moment ≡ none
      → env.query_fault (suc s.moment) ≡ none
      → reconcile_once env config mode (some key) s ≡ (
        ok record stats {
          run_key = key;
          mode = mode;
          status = skipped;
          skipped_reason = some "run_key already completed";
        },
        tick (tick s),
      )
  unfolding reconcile_once ◌>>=◌ pure create_run query
  skips mode s stats nonempty (row, found, closed_row, trades, drifts, counts) up up' =
      rw (nonempty, found, up) (rw (found, up') (rw (closed_row, trades, drifts, counts) refl))

  -- A run that returned COMPLETED for a key given by the caller has stored its numbers under the key for
  -- good: after whatever runs, of this key and of others, and whatever the database, the indexer and the
  -- chain do in them, a run of the key, the database answering it, is skipped, reports the same numbers,
  -- and changes nothing but the clock's moment.
  pub reconcile_once-again :
      (mode mode' : ReconcileMode) (runs : List (ReconcileMode × Option String)) (s s' : Ledger)
      (stats : RunStats)
      → is_empty key ≡ false
      → reconcile_once env config mode (some key) s ≡ (ok stats, s')
      → stats.status ≡ completed
      → let later = run_all env config runs s' in
        env.query_fault later.moment ≡ none
        → env.query_fault (suc later.moment) ≡ none
        → reconcile_once env config mode' (some key) later ≡ (
          ok record stats {
            run_key = key;
            mode = mode';
            status = skipped;
            skipped_reason = some "run_key already completed";
          },
          tick (tick later),
        )
  reconcile_once-again mode mode' runs s s' stats nonempty ran done up up' =
      let ends =
        subst (λ r. Outcome (Ends key) (Anything key) r.0 r.1) ran
          (ran-Ends key env config mode s nonempty) in
      let (is, (row, found, closed_row, trades, drifts, counts)) = ends done in
      let still = run_all-HasIn key row env config runs s' closed_row found in
      skips mode' (run_all env config runs s') stats nonempty
        (row, still, closed_row, trades, drifts, counts) up up'
