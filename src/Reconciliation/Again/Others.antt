-- ===== src/Reconciliation/Again/Others.antt =====
-- The runs of other keys of reconciliation/src/core/reconciler.ts leave a key's row alone.
use agroasys_web3layer.Prelude.{
  ◌⊎◌, str_eq, eq_iff, ℕ, String, Bool, true, false, ◌≡◌, refl, inl, inr, Option, none, some, List,
  [], ◌∷◌, map, find, Bool-cases,
}
use agroasys_web3layer.Exec.{pure, throw}
use agroasys_web3layer.Exec.Triple.{Triple, Triple-bind, Triple-catch}
use agroasys_web3layer.Reconciliation.{
  ReconcileMode, RunStats, ReconcileRunRow, ReconcileRunStatus, running, completed, failed, skipped,
}
use agroasys_web3layer.Reconciliation.Store.{
  new_run, fail_run, failed_row, Act, Ledger, Outside, is_run, insert_run, completed_row,
  created_or_found, create_run, complete_run,
}
use agroasys_web3layer.Reconciliation.Reconciler.{
  RunConfig, fresh_stats, run_trades, go_on, with_run,
}
use agroasys_web3layer.Reconciliation.Loop.{query-Triple, reconcile_loop-Counts}

-- The row of the key.
module _ (key : String) (row : ReconcileRunRow) where
  abbrev pub Has : List ReconcileRunRow → Type 0
  Has rows = find (is_run key) rows ≡ some row

  abbrev pub HasIn : Ledger → Type 0
  HasIn s = Has s.runs

  -- An update of the rows of another key.
  pub map-Has :
      (k : String) (f : ReconcileRunRow → ReconcileRunRow) (rows : List ReconcileRunRow)
      → str_eq k key ≡ false
      → ((r : ReconcileRunRow) → (f r ≡ r) ⊎ ((is_run k r ≡ true) × ((f r).run_key ≡ r.run_key)))
      → Has rows
      → Has (map f rows)
  map-Has k f [] other touches h = h
  map-Has k f (r ∷ rows) other touches h = elim (touches r) [
    | inl same ↦ elim (Bool-cases (is_run key r)) [
      | inl is ↦
          let here = rw (is, find) at h in
          let is' : is_run key (f r) ≡ true = rw same is in rw (is', find) (rw same here)
      | inr is_not ↦
          let is_not' : is_run key (f r) ≡ false = rw same is_not in
          rw (is_not', find) (map-Has k f rows other touches (rw (is_not, find) at h))
    ]
    | inr (of_other, same) ↦
        let e : r.run_key ≡ k = (eq_iff r.run_key k).0 of_other in
        let is_not : is_run key r ≡ false = rw e other in
        let is_not' : is_run key (f r) ≡ false = rw same is_not in
        rw (is_not', find) (map-Has k f rows other touches (rw (is_not, find) at h))
  ]

  completed_row-touches :
      (now : ℕ) (k : String) (stats : RunStats) (r : ReconcileRunRow)
      → stats.run_key ≡ k
      → (completed_row now stats r ≡ r)
        ⊎ ((is_run k r ≡ true) × ((completed_row now stats r).run_key ≡ r.run_key))
  completed_row-touches now k stats r is = elim (Bool-cases (is_run stats.run_key r)) [
    | inl mine ↦ inr (rw is at mine, rw (mine, completed_row) refl)
    | inr no_match ↦ inl (rw (no_match, completed_row) refl)
  ]

  failed_row-touches :
      (now : ℕ) (k message : String) (r : ReconcileRunRow)
      → (failed_row now k message r ≡ r)
        ⊎ ((is_run k r ≡ true) × ((failed_row now k message r).run_key ≡ r.run_key))
  failed_row-touches now k message r = elim (Bool-cases (is_run k r)) [
    | inl mine ↦ inr (mine, rw (mine, failed_row) refl)
    | inr no_match ↦ inl (rw (no_match, failed_row) refl)
  ]

  insert_run-Has :
      (now : ℕ) (k : String) (mode : ReconcileMode) (old : Option ReconcileRunRow) (s : Ledger)
      → str_eq k key ≡ false
      → HasIn s
      → HasIn (insert_run now k mode old s).1
  insert_run-Has now k mode (some r) s other h = h
  insert_run-Has now k mode none s other h =
      let is_not : is_run key (new_run s.next_run_id now k mode) ≡ false = other in
      rw (is_not, find) h

  module _ (env : Outside) (config : RunConfig) where
    -- A method that keeps the row.
    abbrev pub KeepsRow : {A : Type 0} → Act A → Type 0
    KeepsRow m = Triple HasIn m (λ _. HasIn) HasIn

    pub pure-KeepsRow : {A : Type 0} (a : A) → KeepsRow (pure a)
    unfolding pure
    pure-KeepsRow a = record { at = λ s h. h }

    throw-KeepsRow : {A : Type 0} (e : String) → KeepsRow (throw {A = A} e)
    unfolding throw
    throw-KeepsRow e = record { at = λ s h. h }

    module _ (k : String) (mode : ReconcileMode) (other : str_eq k key ≡ false) where
      created_or_found-KeepsRow : (o : Option ReconcileRunRow) → KeepsRow (created_or_found env k o)
      created_or_found-KeepsRow (some r) = pure-KeepsRow (some r, true)
      created_or_found-KeepsRow none =
          Triple-bind _ _ (λ _. HasIn) (query-Triple Has env (λ _. HasIn) _ (λ now s h. h))
            (λ o. pure-KeepsRow (o, false))

      pub create_run-KeepsRow : KeepsRow (create_run env k mode)
      unfolding create_run
      create_run-KeepsRow =
          Triple-bind _ _ (λ _. HasIn)
            (query-Triple Has env (λ _. HasIn)
              (λ now s. insert_run now k mode (find (is_run k) s.runs) s)
              (λ now s h. insert_run-Has now k mode (find (is_run k) s.runs) s other h))
            created_or_found-KeepsRow

      complete_run-KeepsRow :
          (stats : RunStats)
          → Triple (λ s. (stats.run_key ≡ k) × HasIn s) (complete_run env stats) (λ _. HasIn) HasIn
      unfolding complete_run
      complete_run-KeepsRow stats = record {
        at = λ s (is, h).
            (query-Triple Has env (λ _. HasIn) _
                (λ now u h'.
                  map-Has k _ u.runs other (λ r. completed_row-touches now k stats r is) h')).at
              s h;
      }

      fail_run-KeepsRow : (message : String) → KeepsRow (fail_run env k message)
      unfolding fail_run
      fail_run-KeepsRow message =
          query-Triple Has env (λ _. HasIn) _
            (λ now u h. map-Has k _ u.runs other (failed_row-touches now k message) h)

      run_trades-KeepsRow : (id : ℕ) → KeepsRow (run_trades env config id k mode)
      unfolding run_trades
      run_trades-KeepsRow id =
          Triple-catch HasIn _ _
            (Triple-bind _ _ (λ stats s. (stats.run_key ≡ k) × HasIn s)
              (reconcile_loop-Counts Has (λ stats. stats.run_key ≡ k) (λ f stats b. b)
                (λ stats b. b) env config config.max_trades_per_run id k 0 (fresh_stats k mode)
                refl)
              (λ stats.
                Triple-bind _ _ (λ _. HasIn) (complete_run-KeepsRow stats)
                  (λ _. pure-KeepsRow stats)))
            (λ e. Triple-bind _ _ (λ _. HasIn) (fail_run-KeepsRow _) (λ _. throw-KeepsRow e))

      go_on-KeepsRow :
          (status : ReconcileRunStatus) (r : ReconcileRunRow)
          → KeepsRow (go_on env config status k mode r)
      go_on-KeepsRow completed r = pure-KeepsRow _
      go_on-KeepsRow running r = pure-KeepsRow _
      go_on-KeepsRow failed r = run_trades-KeepsRow r.id
      go_on-KeepsRow skipped r = run_trades-KeepsRow r.id

      pub with_run-KeepsRow :
          (run : Option ReconcileRunRow × Bool) → KeepsRow (with_run env config k mode run)
      with_run-KeepsRow (none, created) = throw-KeepsRow _
      with_run-KeepsRow (some r, true) = run_trades-KeepsRow r.id
      with_run-KeepsRow (some r, false) = go_on-KeepsRow r.status r
