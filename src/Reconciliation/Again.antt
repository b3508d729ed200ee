-- ===== src/Reconciliation/Again.antt =====
-- A run key of reconciliation/src/core/reconciler.ts that comes again after its run completed.
pub mod Others
pub mod Every
use mathlib.Core.Path.{subst}
use agroasys_web3layer.Prelude.{
  ℕ, suc, String, Bool, true, false, ◌≡◌, refl, inl, inr, Option, none, some, List, [], ◌∷◌, map,
  find, any, Bool-cases, eq_refl, is_empty,
}
use agroasys_web3layer.Exec.{ok, pure, throw, ◌>>=◌}
use agroasys_web3layer.Exec.Triple.{Outcome, Triple, Triple-bind, Triple-catch, Triple-any}
use agroasys_web3layer.Reconciliation.{
  ReconcileMode, RunStats, ReconcileRunRow, ReconcileRunStatus, running, completed, failed, skipped,
}
use agroasys_web3layer.Reconciliation.Store.{
  Ledger, Outside, tick, is_run, insert_run, completed_row, query, created_or_found, create_run,
  complete_run,
}
use agroasys_web3layer.Reconciliation.Reconciler.{
  RunConfig, fresh_stats, run_trades, go_on, with_run, reconcile_once,
}
use agroasys_web3layer.Reconciliation.Loop.{query-Triple, reconcile_loop-Counts}

-- The key's row is completed, with these numbers.
abbrev pub IsStored : RunStats → Option ReconcileRunRow → Type 0
IsStored stats found =
    (row : ReconcileRunRow) × (found ≡ some row)
    × (row.status ≡ completed)
    × (row.total_trades ≡ stats.total_trades)
    × (row.drift_count ≡ stats.drift_count)
    × (row.severity_counts ≡ stats.severity_counts)

abbrev closed : ℕ → RunStats → ReconcileRunRow → ReconcileRunRow
closed now stats row = record row {
  status = stats.status;
  completed_at = some now;
  total_trades = stats.total_trades;
  drift_count = stats.drift_count;
  severity_counts = stats.severity_counts;
}

find-completed :
    (now : ℕ) (stats : RunStats) (rows : List ReconcileRunRow)
    → stats.status ≡ completed
    → any (is_run stats.run_key) rows ≡ true
    → IsStored stats (find (is_run stats.run_key) (map (completed_row now stats) rows))
find-completed now stats [] done h = elim (let bad : ⊥ = cc in bad) [ ]
find-completed now stats (r ∷ rows) done h = elim (Bool-cases (is_run stats.run_key r)) [
  | inl is ↦
      rw (is, completed_row) (rw (is, find) (closed now stats r, refl, done, refl, refl, refl))
  | inr is_not ↦
      let later = rw is_not at h in
      rw (is_not, completed_row) (rw (is_not, find) (find-completed now stats rows done later))
]

module _ (key : String) where
  -- The key has a row.
  abbrev HasRow : List ReconcileRunRow → Type 0
  HasRow rows = any (is_run key) rows ≡ true

  abbrev RowsOf : Ledger → Type 0
  RowsOf s = HasRow s.runs

  -- The counts are those of a completed run of the key.
  abbrev IsOfKey : RunStats → Type 0
  IsOfKey stats = (stats.run_key ≡ key) × (stats.status ≡ completed)

  abbrev StoredIn : RunStats → Ledger → Type 0
  StoredIn stats s = (stats.run_key ≡ key) × IsStored stats (find (is_run key) s.runs)

  -- Where the run completed, its row says so.
  abbrev Ends : RunStats → Ledger → Type 0
  Ends stats s = stats.status ≡ completed → StoredIn stats s

  abbrev Anything : Ledger → Type 0
  Anything s = Unit

  find-HasRow :
      (rows : List ReconcileRunRow) (row : ReconcileRunRow)
      → find (is_run key) rows ≡ some row
      → HasRow rows
  find-HasRow [] row e = cc
  find-HasRow (r ∷ rows) row e = elim (Bool-cases (is_run key r)) [
    | inl is ↦ rw is refl
    | inr is_not ↦ let later = rw (is_not, find) at e in rw is_not (find-HasRow rows row later)
  ]

  -- What is passed to `with_run`: a row, and a key that has one.
  abbrev Found : Option ReconcileRunRow × Bool → Ledger → Type 0
  Found (none, created) s = Unit
  Found (some row, created) s = RowsOf s

  read_row-Found :
      (s : Ledger) (o : Option ReconcileRunRow)
      → find (is_run key) s.runs ≡ o
      → Found (o, false) (tick s)
  read_row-Found s none e = tt
  read_row-Found s (some row) e = find-HasRow s.runs row e

  abbrev Inserted : Option ReconcileRunRow → Ledger → Type 0
  Inserted none s = Unit
  Inserted (some row) s = RowsOf s

  insert_run-Inserted :
      (now : ℕ) (mode : ReconcileMode) (old : Option ReconcileRunRow) (s : Ledger)
      → Inserted (insert_run now key mode old s).0 (tick (insert_run now key mode old s).1)
  insert_run-Inserted now mode (some row) s = tt
  insert_run-Inserted now mode none s = rw (eq_refl key) refl

  module _ (env : Outside) (config : RunConfig) where
    complete_run-Triple :
        (stats : RunStats)
        → Triple
            (λ s. IsOfKey stats × RowsOf s)
            (complete_run env stats)
            (λ _. StoredIn stats)
            RowsOf
    unfolding complete_run
    complete_run-Triple stats = record {
      at = λ s ((is, done), p).
          (query-Triple HasRow env (λ _. StoredIn stats) _
              (λ now u h. (
                is,
                subst
                    (λ k.
                      any (is_run k) u.runs ≡ true
                      → IsStored stats (find (is_run k) (map (completed_row now stats) u.runs)))
                    is (find-completed now stats u.runs done) h,
              ))).at
            s p;
    }

    pure-Ends : (stats : RunStats) → Triple {E = String} (StoredIn stats) (pure stats) Ends RowsOf
    unfolding pure
    pure-Ends stats = record { at = λ s p _. p }

    throw-Ends : (e : String) → Triple Anything (throw e) Ends Anything
    unfolding throw
    throw-Ends e = record { at = λ s p. tt }

    skipped-Ends :
        (stats : RunStats)
        → stats.status ≡ skipped
        → Triple {E = String} RowsOf (pure stats) Ends Anything
    unfolding pure
    skipped-Ends stats is = record { at = λ s p done. let bad : ⊥ = cc in elim bad [ ] }

    run_trades-Ends :
        (id : ℕ) (mode : ReconcileMode)
        → Triple RowsOf (run_trades env config id key mode) Ends Anything
    unfolding run_trades
    run_trades-Ends id mode =
        Triple-catch RowsOf _ _
          (Triple-bind _ _ (λ stats s. IsOfKey stats × RowsOf s)
            (reconcile_loop-Counts HasRow IsOfKey (λ f stats b. b) (λ stats b. b) env config
              config.max_trades_per_run id key 0 (fresh_stats key mode) (refl, refl))
            (λ stats.
              Triple-bind _ _ (λ _. StoredIn stats) (complete_run-Triple stats)
                (λ _. pure-Ends stats)))
          (λ e. Triple-bind _ _ (λ a s. Unit) (Triple-any _) (λ _. throw-Ends e))

    go_on-Ends :
        (status : ReconcileRunStatus) (mode : ReconcileMode) (row : ReconcileRunRow)
        → Triple RowsOf (go_on env config status key mode row) Ends Anything
    go_on-Ends completed mode row = skipped-Ends _ refl
    go_on-Ends running mode row = skipped-Ends _ refl
    go_on-Ends failed mode row = run_trades-Ends row.id mode
    go_on-Ends skipped mode row = run_trades-Ends row.id mode

    with_run-Ends :
        (mode : ReconcileMode) (run : Option ReconcileRunRow × Bool)
        → Triple (Found run) (with_run env config key mode run) Ends Anything
    with_run-Ends mode (none, created) = throw-Ends _
    with_run-Ends mode (some row, true) = run_trades-Ends row.id mode
    with_run-Ends mode (some row, false) = go_on-Ends row.status mode row

    pure-Found :
        (run : Option ReconcileRunRow × Bool)
        → Triple {E = String} (Found run) (pure run) Found Anything
    unfolding pure
    pure-Found run = record { at = λ s p. p }

    created_or_found-Found :
        (row : Option ReconcileRunRow)
        → Triple (Inserted row) (created_or_found env key row) Found Anything
    created_or_found-Found (some row) = pure-Found (some row, true)
    created_or_found-Found none =
        Triple-bind _ _ (λ row s. Found (row, false) s)
          (query-Triple (λ rows. Unit) env _ _
            (λ now s p. read_row-Found s (find (is_run key) s.runs) refl))
          (λ row. pure-Found (row, false))

    create_run-Found :
        (mode : ReconcileMode) → Triple Anything (create_run env key mode) Found Anything
    unfolding create_run
    create_run-Found mode =
        Triple-bind _ _ Inserted
          (query-Triple (λ rows. Unit) env _
            (λ now s. insert_run now key mode (find (is_run key) s.runs) s)
            (λ now s p. insert_run-Inserted now mode (find (is_run key) s.runs) s))
          created_or_found-Found

    ran-Ends :
        (mode : ReconcileMode) (s : Ledger)
        → is_empty key ≡ false
        → Outcome Ends Anything
            (reconcile_once env config mode (some key) s).0
            (reconcile_once env config mode (some key) s).1
    unfolding reconcile_once ◌>>=◌ pure
    ran-Ends mode s nonempty =
        let run =
          Triple-bind (create_run env key mode) (with_run env config key mode) Found
            (create_run-Found mode) (with_run-Ends mode) in
        rw nonempty (run.at s tt)
