-- ===== src/Reconciliation/Loop.antt =====
-- What the loop of reconciliation/src/core/reconciler.ts keeps of the stored runs and of the counts.
use agroasys_web3layer.Prelude.{
  ℕ, zero, suc, ◌-◌, min, String, Option, none, some, List, [], ◌∷◌, length, ltb,
}
use agroasys_web3layer.Exec.{◌>>=◌, pure, throw}
use agroasys_web3layer.Exec.Keeps.{Keeps-pure, Keeps-modify}
use agroasys_web3layer.Exec.Triple.{
  Outcome, Triple, Keeps-Triple, Triple-bind, Triple-lift, Triple-pre, Triple-if,
}
use agroasys_web3layer.Reconciliation.{
  ReconcileMode, once, daemon, DriftFinding, IndexedTradeRecord, RunStats, ReconcileRunRow,
}
use agroasys_web3layer.Reconciliation.Store.{
  Ledger, Outside, Act, tick, query, answered, upsert_drift, upsert_run_trade_scope,
}
use agroasys_web3layer.Reconciliation.Reconciler.{
  key_or_generated, generate_run_key, read_clock, RunConfig, counted, one_more_trade, is_critical,
  notify_critical_drift, record_findings, read_trade, reconcile_trade, reconcile_trades, fetch,
  after_batch, reconcile_loop,
}

module _ (K : List ReconcileRunRow → Type 0) where
  abbrev pub Stored : Ledger → Type 0
  Stored s = K s.runs

  -- A method that keeps what holds of the stored runs.
  abbrev pub Safe : {A : Type 0} → Act A → Type 0
  Safe m = Triple Stored m (λ _. Stored) Stored

  notify-Safe : (key : String) (f : DriftFinding) → Safe (notify_critical_drift key f)
  unfolding notify_critical_drift
  notify-Safe key f =
      Triple-if (is_critical f.severity) _ _ (λ _. Keeps-Triple _ _ (Keeps-modify _ (λ s p. p)))
        (λ _. Keeps-Triple _ _ (Keeps-pure tt))

  module _ (env : Outside) where
    answered-Outcome :
        {A : Type 0} (Q : A → Ledger → Type 0) (fault : Option String) (r : A × Ledger) (s : Ledger)
        → Q r.0 (tick r.1)
        → Stored s
        → Outcome Q Stored (answered env fault r s).0 (answered env fault r s).1
    answered-Outcome Q none (a, s') s q p = q
    answered-Outcome Q (some e) r s q p = p

    pub query-Triple :
        {A : Type 0} (Q : A → Ledger → Type 0) (statement : ℕ → Ledger → A × Ledger)
        → ((now : ℕ) (s : Ledger) → Stored s → Q (statement now s).0 (tick (statement now s).1))
        → Triple Stored (query env statement) Q Stored
    unfolding query
    query-Triple Q statement k = record {
      at = λ s p.
          answered-Outcome Q (env.query_fault s.moment) (statement (env.now s.moment) s) s
            (k (env.now s.moment) s p) p;
    }

  module _ (env : Outside) (config : RunConfig) where
    upsert_drift-Safe :
        (id : ℕ) (key : String) (f : DriftFinding) → Safe (upsert_drift env id key f)
    unfolding upsert_drift
    upsert_drift-Safe id key f = query-Triple env (λ _. Stored) _ (λ now s p. p)

    scope-Safe :
        (id : ℕ) (key trade_id : String) → Safe (upsert_run_trade_scope env id key trade_id)
    unfolding upsert_run_trade_scope
    scope-Safe id key trade_id = query-Triple env (λ _. Stored) _ (λ now s p. p)

    read_trade-Safe : (trade_id : String) → Safe (read_trade env config trade_id)
    unfolding read_trade
    read_trade-Safe trade_id = record { at = λ s p. p }

    fetch-Safe : (limit offset : ℕ) → Safe (fetch env config limit offset)
    unfolding fetch
    fetch-Safe limit offset = Keeps-Triple _ _ (record { at = λ s p. p })

    pub key-Safe :
        (mode : ReconcileMode) (key : Option String) → Safe (key_or_generated env config mode key)
    unfolding generate_run_key read_clock pure ◌>>=◌
    key-Safe mode (some key) = record { at = λ s p. p }
    key-Safe once none = record { at = λ s p. p }
    key-Safe daemon none = record { at = λ s p. p }

module _ (K : List ReconcileRunRow → Type 0) (J : RunStats → Type 0) where
  abbrev pub Good : RunStats → Ledger → Type 0
  Good stats s = J stats × Stored K s

  -- A method that keeps it, and returns counts of which `J` holds.
  abbrev pub Counts : Act RunStats → Type 0
  Counts m = Triple (Stored K) m Good (Stored K)

  pub pure-Counts : (stats : RunStats) → J stats → Counts (pure stats)
  unfolding pure
  pure-Counts stats b = record { at = λ s p. (b, p) }

  pub pure-Good : (stats : RunStats) → Triple {E = String} (Good stats) (pure stats) Good (Stored K)
  unfolding pure
  pure-Good stats = record { at = λ s p. p }

  from-Good :
      (stats : RunStats) (m : Act RunStats)
      → (J stats → Counts m)
      → Triple (Good stats) m Good (Stored K)
  from-Good stats m k = record { at = λ s (b, p). (k b).at s p }

  pub throw-Counts : (e : String) → Counts (throw e)
  unfolding throw
  throw-Counts e = record { at = λ s p. p }

module _ (K : List ReconcileRunRow → Type 0) (J : RunStats → Type 0)
    (count : (f : DriftFinding) (stats : RunStats) → J stats → J (counted f stats))
    (one : (stats : RunStats) → J stats → J (one_more_trade stats)) where
  module _ (env : Outside) (config : RunConfig) where
    record_findings-Counts :
        (id : ℕ) (key : String) (fs : List DriftFinding) (stats : RunStats)
        → J stats
        → Counts K J (record_findings env config id key fs stats)
    unfolding record_findings
    record_findings-Counts id key [] stats b = pure-Counts K J stats b
    record_findings-Counts id key (f ∷ fs) stats b =
        Triple-bind _ _ (λ _. Stored K) (upsert_drift-Safe K env config id key f)
          (λ _.
            Triple-bind _ _ (λ _. Stored K) (notify-Safe K key f)
              (λ _. record_findings-Counts id key fs (counted f stats) (count f stats b)))

    reconcile_trade-Counts :
        (id : ℕ) (key : String) (trade : IndexedTradeRecord) (stats : RunStats)
        → J stats
        → Counts K J (reconcile_trade env config id key trade stats)
    unfolding reconcile_trade
    reconcile_trade-Counts id key trade stats b =
        Triple-bind _ _ (λ _. Stored K) (scope-Safe K env config id key trade.trade_id)
          (λ _.
            Triple-bind _ _ (λ _. Stored K) (read_trade-Safe K env config trade.trade_id)
              (λ onchain. Triple-bind _ _ _ (Triple-lift _ (λ s p. p)) (λ findings.
                Triple-pre (λ s (p, _). p)
                  (record_findings-Counts id key findings (one_more_trade stats) (one stats b)))))

    reconcile_trades-Counts :
        (id : ℕ) (key : String) (ts : List IndexedTradeRecord) (stats : RunStats)
        → J stats
        → Counts K J (reconcile_trades env config id key ts stats)
    unfolding reconcile_trades
    reconcile_trades-Counts id key [] stats b = pure-Counts K J stats b
    reconcile_trades-Counts id key (t ∷ ts) stats b =
        Triple-bind _ _ (Good K J) (reconcile_trade-Counts id key t stats b)
          (λ stats'. from-Good K J stats' _ (λ b'. reconcile_trades-Counts id key ts stats' b'))

    after_batch-Counts :
        (next : ℕ → RunStats → Act RunStats) (id : ℕ) (key : String) (limit : ℕ)
        (ts : List IndexedTradeRecord) (offset : ℕ) (stats : RunStats)
        → ((offset' : ℕ) (stats' : RunStats) → J stats' → Counts K J (next offset' stats'))
        → J stats
        → Counts K J (after_batch env config next id key limit ts offset stats)
    unfolding after_batch
    after_batch-Counts next id key limit [] offset stats k b = pure-Counts K J stats b
    after_batch-Counts next id key limit (t ∷ ts) offset stats k b =
        Triple-bind _ _ (Good K J) (reconcile_trades-Counts id key (t ∷ ts) stats b) (λ stats'.
          Triple-if (ltb (length (t ∷ ts)) limit) _ _ (λ _. pure-Good K J stats')
            (λ _. from-Good K J stats' _ (k _ stats')))

    pub reconcile_loop-Counts :
        (fuel id : ℕ) (key : String) (offset : ℕ) (stats : RunStats)
        → J stats
        → Counts K J (reconcile_loop env config fuel id key offset stats)
    unfolding reconcile_loop
    reconcile_loop-Counts zero id key offset stats b = pure-Counts K J stats b
    reconcile_loop-Counts (suc fuel) id key offset stats b =
        let limit = min config.batch_size (config.max_trades_per_run - stats.total_trades) in
        Triple-if (ltb stats.total_trades config.max_trades_per_run) _ _
          (λ _.
            Triple-bind _ _ (λ _. Stored K) (fetch-Safe K env config limit offset)
              (λ ts.
                after_batch-Counts _ id key limit ts offset stats
                  (λ offset' stats' b'. reconcile_loop-Counts fuel id key offset' stats' b') b))
          (λ _. pure-Counts K J stats b)
