-- ===== src/Treasury/Ingestion/Fuel.antt =====
-- The fuel of the loop of treasury/src/core/ingestion.ts.
use agroasys_web3layer.Prelude.{
  ℕ, zero, suc, ◌+◌, ◌-◌, ◌≤◌, ◌<◌, false, ◌≡◌, refl, List, [], ◌∷◌, length, min, ltb, arith, ◌∙◌,
  sym,
}
use agroasys_web3layer.Exec.Same.{bind-same, if-same, if-then-same}
use agroasys_web3layer.Exec.{ok, pure}
use agroasys_web3layer.Treasury.Ledger.{IngestionEvent, Surroundings, Office, Act}
use agroasys_web3layer.Treasury.Ingestion.{IngestionConfig, fetch, after_fetch, ingest_loop}

module _ (env : Surroundings) (config : IngestionConfig) where
  after_fetch-same :
      (next next' : ℕ → ℕ → ℕ → Act (ℕ × ℕ × ℕ)) (limit : ℕ) (events : List IngestionEvent)
      (offset fetched inserted : ℕ) (o : Office)
      → ((offset' fetched' inserted' : ℕ) (o : Office)
          → fetched < fetched'
          → next offset' fetched' inserted' o ≡ next' offset' fetched' inserted' o)
      → after_fetch env next limit events offset fetched inserted o
        ≡ after_fetch env next' limit events offset fetched inserted o
  unfolding after_fetch
  after_fetch-same next next' limit [] offset fetched inserted o same = refl
  after_fetch-same next next' limit (e ∷ es) offset fetched inserted o same =
      bind-same _ _ _ o
        (λ n v. if-same (ltb (length (e ∷ es)) limit) _ _ _ v (same _ _ _ v (omega arith)))

  done :
      (fuel offset fetched inserted : ℕ) (o : Office)
      → config.ingest_max_events ≤ fetched
      → ingest_loop env config fuel offset fetched inserted o ≡ (ok (offset, fetched, inserted), o)
  unfolding ingest_loop pure
  done zero offset fetched inserted o h = refl
  done (suc fuel) offset fetched inserted o h =
      let full : ltb fetched config.ingest_max_events ≡ false = ground arith in rw full refl

  -- From `fetched` events on, as many rounds as events are missing to the maximum are enough: any two
  -- amounts of fuel that suffice give the same result and the same state.
  pub ingest_loop-enough :
      (fuel fuel' offset fetched inserted : ℕ) (o : Office)
      → config.ingest_max_events ≤ fetched + fuel
      → config.ingest_max_events ≤ fetched + fuel'
      → ingest_loop env config fuel offset fetched inserted o
        ≡ ingest_loop env config fuel' offset fetched inserted o
  unfolding ingest_loop pure
  ingest_loop-enough zero fuel' offset fetched inserted o h h' =
      done zero offset fetched inserted o (omega arith)
      ∙ sym (done fuel' offset fetched inserted o (omega arith))
  ingest_loop-enough (suc fuel) zero offset fetched inserted o h h' =
      done (suc fuel) offset fetched inserted o (omega arith)
  ingest_loop-enough (suc fuel) (suc fuel') offset fetched inserted o h h' =
      let limit = min config.ingest_batch_size (config.ingest_max_events - fetched) in
      if-then-same (ltb fetched config.ingest_max_events) _ _ _ o (
        bind-same (fetch env limit offset) _ _ o (λ events v.
          after_fetch-same _ _ limit events offset fetched inserted v
            (λ offset' fetched' inserted' u more.
              ingest_loop-enough fuel fuel' offset' fetched' inserted' u (omega arith)
                (omega arith))))
