-- ===== src/Reconciliation/Rounds.antt =====
-- The rounds of the loop of reconciliation/src/core/reconciler.ts.
use agroasys_web3layer.Prelude.{
  ℕ, zero, suc, ◌+◌, ◌-◌, ◌≤◌, ◌<◌, String, false, ◌≡◌, refl, List, [], ◌∷◌, length, min, ltb,
  arith, ◌∙◌, sym,
}
use agroasys_web3layer.Exec.{ok, pure}
use agroasys_web3layer.Exec.Triple.{Triple, Triple-bind, Triple-post, Triple-any}
use agroasys_web3layer.Exec.Same.{bind-same, bind-same-on, if-same, if-then-same}
use agroasys_web3layer.Reconciliation.{DriftFinding, IndexedTradeRecord, RunStats}
use agroasys_web3layer.Reconciliation.Store.{Ledger, Outside, Act}
use agroasys_web3layer.Reconciliation.Reconciler.{
  RunConfig, counted, one_more_trade, record_findings, reconcile_trade, reconcile_trades, fetch,
  after_batch, reconcile_loop,
}

-- What a method returns, whatever the state, where it returns.
abbrev Returns : Act RunStats → (RunStats → Type 0) → Type 0
Returns m Q = Triple (λ s. Unit) m (λ stats s. Q stats) (λ s. Unit)

-- What is known of the value before.
from_value :
    {P : Type 0} {m : Act RunStats} {Q : RunStats → Type 0}
    → (P → Returns m Q)
    → Triple (λ s. P) m (λ stats s. Q stats) (λ s. Unit)
from_value k = record { at = λ s p. (k p).at s tt }

pure-Returns : (stats : RunStats) (Q : RunStats → Type 0) → Q stats → Returns (pure stats) Q
unfolding pure
pure-Returns stats Q q = record { at = λ s p. q }

module _ (env : Outside) (config : RunConfig) where
  record_findings-Returns :
      (id : ℕ) (key : String) (fs : List DriftFinding) (stats : RunStats)
      → Returns
          (record_findings env config id key fs stats)
          (λ r. r.total_trades ≡ stats.total_trades)
  unfolding record_findings
  record_findings-Returns id key [] stats = pure-Returns stats _ refl
  record_findings-Returns id key (f ∷ fs) stats =
      Triple-bind _ _ (λ a s. Unit) (Triple-any _)
        (λ _.
          Triple-bind _ _ (λ a s. Unit) (Triple-any _)
            (λ _. record_findings-Returns id key fs (counted f stats)))

  reconcile_trade-Returns :
      (id : ℕ) (key : String) (trade : IndexedTradeRecord) (stats : RunStats)
      → Returns
          (reconcile_trade env config id key trade stats)
          (λ r. r.total_trades ≡ suc stats.total_trades)
  unfolding reconcile_trade
  reconcile_trade-Returns id key trade stats =
      Triple-bind _ _ (λ a s. Unit) (Triple-any _)
        (λ _.
          Triple-bind _ _ (λ a s. Unit) (Triple-any _)
            (λ onchain.
              Triple-bind _ _ (λ a s. Unit) (Triple-any _)
                (λ findings. record_findings-Returns id key findings (one_more_trade stats))))

  reconcile_trades-Returns :
      (id : ℕ) (key : String) (ts : List IndexedTradeRecord) (stats : RunStats)
      → Returns
          (reconcile_trades env config id key ts stats)
          (λ r. r.total_trades ≡ length ts + stats.total_trades)
  unfolding reconcile_trades
  reconcile_trades-Returns id key [] stats =
      pure-Returns stats (λ r. r.total_trades ≡ 0 + stats.total_trades) (omega arith)
  reconcile_trades-Returns id key (t ∷ ts) stats =
      Triple-bind _ _ (λ r s. r.total_trades ≡ suc stats.total_trades)
        (reconcile_trade-Returns id key t stats)
        (λ stats'. from_value (λ one.
          Triple-post (λ r s more. omega (arith, one, more)) (λ s u. u)
            (reconcile_trades-Returns id key ts stats')))

  after_batch-same :
      (next next' : ℕ → RunStats → Act RunStats) (id : ℕ) (key : String) (limit : ℕ)
      (trades : List IndexedTradeRecord) (offset : ℕ) (stats : RunStats) (s : Ledger)
      → ((offset' : ℕ) (stats' : RunStats) (s : Ledger)
          → stats.total_trades < stats'.total_trades
          → next offset' stats' s ≡ next' offset' stats' s)
      → after_batch env config next id key limit trades offset stats s
        ≡ after_batch env config next' id key limit trades offset stats s
  unfolding after_batch
  after_batch-same next next' id key limit [] offset stats s same = refl
  after_batch-same next next' id key limit (t ∷ ts) offset stats s same =
      bind-same-on _ _ _ (λ stats' u. stats'.total_trades ≡ length (t ∷ ts) + stats.total_trades)
        (λ u. Unit) s ((reconcile_trades-Returns id key (t ∷ ts) stats).at s tt)
        (λ stats' u more.
          if-same (ltb (length (t ∷ ts)) limit) _ _ _ u (same _ stats' u (omega (arith, more))))

  done :
      (fuel id : ℕ) (key : String) (offset : ℕ) (stats : RunStats) (s : Ledger)
      → config.max_trades_per_run ≤ stats.total_trades
      → reconcile_loop env config fuel id key offset stats s ≡ (ok stats, s)
  unfolding reconcile_loop pure
  done zero id key offset stats s h = refl
  done (suc fuel) id key offset stats s h =
      let full : ltb stats.total_trades config.max_trades_per_run ≡ false = ground arith in
      rw full refl

  -- As many rounds as trades are missing to the maximum are enough: any two amounts of fuel that
  -- suffice give the same result and the same state, whatever the indexer, the chain and the
  -- database do.
  pub reconcile_loop-enough :
      (fuel fuel' id : ℕ) (key : String) (offset : ℕ) (stats : RunStats) (s : Ledger)
      → config.max_trades_per_run ≤ stats.total_trades + fuel
      → config.max_trades_per_run ≤ stats.total_trades + fuel'
      → reconcile_loop env config fuel id key offset stats s
        ≡ reconcile_loop env config fuel' id key offset stats s
  unfolding reconcile_loop pure
  reconcile_loop-enough zero fuel' id key offset stats s h h' =
      done zero id key offset stats s (omega arith)
      ∙ sym (done fuel' id key offset stats s (omega arith))
  reconcile_loop-enough (suc fuel) zero id key offset stats s h h' =
      done (suc fuel) id key offset stats s (omega arith)
  reconcile_loop-enough (suc fuel) (suc fuel') id key offset stats s h h' =
      let limit = min config.batch_size (config.max_trades_per_run - stats.total_trades) in
      if-then-same (ltb stats.total_trades config.max_trades_per_run) _ _ _ s (
        bind-same (fetch env config limit offset) _ _ s (λ trades v.
          after_batch-same _ _ id key limit trades offset stats v (λ offset' stats' u more.
            reconcile_loop-enough fuel fuel' id key offset' stats' u (omega arith) (omega arith))))
