-- ===== src/Treasury/Ingestion/Lifecycle.antt =====
-- The payouts and the runs of treasury/src/core/ingestion.ts.
use agroasys_web3layer.Prelude.{
  ℕ, zero, suc, String, true, false, ◌≡◌, refl, Option, none, some, List, [], ◌∷◌, any, find,
  length, ltb, ◌==◌, ==_iff, str_eq, Bool-cases, Option-cases, inl, inr,
}
use agroasys_web3layer.Exec.{Result}
use agroasys_web3layer.Exec.Keeps.{Keeps, Keeps-bind, Keeps-if, Keeps-pure}
use agroasys_web3layer.Treasury.Ledger.{
  Books, PayoutLifecycleEvent, TreasuryComponent, LedgerEntryData, IngestionEvent, Surroundings,
  Office, Act, is_of, upsert_entry, insert_event, insert_initial_state, latest_event, unless_failed,
  transact, record_entry, start_cursor, offset_or_start, upsert_ledger_entry_with_initial_state,
  get_ingestion_offset, set_ingestion_offset,
}
use agroasys_web3layer.Treasury.Ingestion.{
  IngestionConfig, Progress, post, post_fees, ingest_event, ingest_events, fetch, after_fetch,
  ingest_loop, ingest_once,
}

-- An entry that has a payout event in `old` has one still, and the same latest one.
abbrev pub KeepsPayouts : List PayoutLifecycleEvent → List PayoutLifecycleEvent → Type 0
KeepsPayouts old new =
    (id : ℕ)
    → any (is_of id) old ≡ true
    → (any (is_of id) new ≡ true) × (latest_event id new ≡ latest_event id old)

events-upsert_entry :
    (now : ℕ) (d : LedgerEntryData) (books : Books)
    → (upsert_entry now d books).1.events ≡ books.events
unfolding upsert_entry
events-upsert_entry now d books =
    elim (Option-cases (find (λ e. str_eq e.entry_key d.entry_key) books.entries)) [
      | inl absent ↦ rw (absent, upsert_entry) refl
      | inr (e, present) ↦ rw (present, upsert_entry) refl
    ]

not_both :
    (id id' : ℕ) (events : List PayoutLifecycleEvent)
    → (id == id') ≡ true
    → any (is_of id) events ≡ false
    → any (is_of id') events ≡ true
    → ⊥
not_both id id' events same lacks has =
    let equal : id ≡ id' = (==_iff id id').0 same in let lacks' = rw equal at lacks in cc

insert_initial_state-KeepsPayouts :
    (now id : ℕ) (books : Books) (old : List PayoutLifecycleEvent)
    → KeepsPayouts old books.events
    → KeepsPayouts old (insert_initial_state now id books).1.events
unfolding insert_initial_state insert_event latest_event
insert_initial_state-KeepsPayouts now id books old k =
    elim (Bool-cases (any (is_of id) books.events)) [
      | inl has ↦ rw has k
      | inr lacks ↦ rw lacks (λ id' had. elim (Bool-cases (id == id')) [
        | inl same ↦ absurd (not_both id id' books.events same lacks (k id' had).0)
        | inr other ↦ rw other (k id' had)
      ])
    ]

module _ (env : Surroundings) (old : List PayoutLifecycleEvent) where
  abbrev HasKept : Office → Type 0
  HasKept o = KeepsPayouts old o.books.events

  unless_failed-HasKept :
      {A : Type 0} (fault : Option String) (o : Office) (r : Result String A) (books : Books)
      → HasKept o
      → KeepsPayouts old books.events
      → HasKept (unless_failed fault o (r, books)).1
  unless_failed-HasKept none o r books p q = q
  unless_failed-HasKept (some e) o r books p q = p

  transact-Keeps :
      {A : Type 0} (statement : ℕ → Books → A × Books)
      → ((now : ℕ) (books : Books)
          → KeepsPayouts old books.events
          → KeepsPayouts old (statement now books).1.events)
      → Keeps HasKept (transact env statement)
  unfolding transact
  transact-Keeps statement k = record {
    at = λ o p.
        unless_failed-HasKept (env.query_fault o.moment) o _ _ p (k (env.now o.moment) o.books p);
  }

  upsert-Keeps :
      (d : LedgerEntryData) → Keeps HasKept (upsert_ledger_entry_with_initial_state env d)
  unfolding upsert_ledger_entry_with_initial_state
  upsert-Keeps d = transact-Keeps (record_entry d) (λ now books k.
      insert_initial_state-KeepsPayouts now _ (upsert_entry now d books).1 old
        (rw (events-upsert_entry now d books) k))

  offset_or_start-Keeps : (row : Option ℕ) → Keeps HasKept (offset_or_start env row)
  unfolding offset_or_start
  offset_or_start-Keeps none =
      Keeps-bind _ _ (transact-Keeps start_cursor (λ now books k. k)) (λ _. Keeps-pure 0)
  offset_or_start-Keeps (some offset) = Keeps-pure offset

  get_ingestion_offset-Keeps : Keeps HasKept (get_ingestion_offset env)
  unfolding get_ingestion_offset
  get_ingestion_offset-Keeps =
      Keeps-bind _ _ (transact-Keeps (λ now books. (books.next_offset, books)) (λ now books k. k))
        offset_or_start-Keeps

  post-Keeps :
      (e : IngestionEvent) (c : TreasuryComponent) (amount hash : Option String)
      → Keeps HasKept (post env e c amount hash)
  unfolding post
  post-Keeps e c none hash = Keeps-pure _
  post-Keeps e c (some amount) none = Keeps-pure _
  post-Keeps e c (some amount) (some hash) = Keeps-bind _ _ (upsert-Keeps _) (λ u. Keeps-pure _)

  post_fees-Keeps : (e : IngestionEvent) (n : Option ℕ) → Keeps HasKept (post_fees env e n)
  unfolding post_fees
  post_fees-Keeps e none = Keeps-pure _
  post_fees-Keeps e (some n) = Keeps-bind _ _ (post-Keeps e _ _ _) (λ fees. Keeps-pure _)

  ingest_events-Keeps : (es : List IngestionEvent) → Keeps HasKept (ingest_events env es)
  unfolding ingest_events ingest_event
  ingest_events-Keeps [] = Keeps-pure _
  ingest_events-Keeps (e ∷ es) =
      Keeps-bind _ _ (Keeps-bind _ _ (post-Keeps e _ _ _) (post_fees-Keeps e))
        (λ n. Keeps-bind _ _ (ingest_events-Keeps es) (λ m. Keeps-pure _))

  fetch-Keeps : (limit offset : ℕ) → Keeps HasKept (fetch env limit offset)
  unfolding fetch
  fetch-Keeps limit offset = record { at = λ o p. p }

  after_fetch-Keeps :
      (next : ℕ → ℕ → ℕ → Act Progress) (limit : ℕ) (es : List IngestionEvent)
      (offset fetched inserted : ℕ)
      → ((a b c : ℕ) → Keeps HasKept (next a b c))
      → Keeps HasKept (after_fetch env next limit es offset fetched inserted)
  unfolding after_fetch
  after_fetch-Keeps next limit [] offset fetched inserted k = Keeps-pure _
  after_fetch-Keeps next limit (e ∷ es) offset fetched inserted k =
      Keeps-bind _ _ (ingest_events-Keeps (e ∷ es))
        (λ n. Keeps-if (ltb (length (e ∷ es)) limit) _ _ (Keeps-pure _) (k _ _ _))

  ingest_loop-Keeps :
      (config : IngestionConfig) (fuel offset fetched inserted : ℕ)
      → Keeps HasKept (ingest_loop env config fuel offset fetched inserted)
  unfolding ingest_loop
  ingest_loop-Keeps config zero offset fetched inserted = Keeps-pure _
  ingest_loop-Keeps config (suc fuel) offset fetched inserted =
      Keeps-if (ltb fetched config.ingest_max_events) _ _
        (Keeps-bind _ _ (fetch-Keeps _ offset)
          (λ es. after_fetch-Keeps _ _ es offset fetched inserted (ingest_loop-Keeps config fuel)))
        (Keeps-pure _)

  ingest_once-Keeps : (config : IngestionConfig) → Keeps HasKept (ingest_once env config)
  unfolding ingest_once set_ingestion_offset
  ingest_once-Keeps config = Keeps-bind _ _ get_ingestion_offset-Keeps (λ start.
      Keeps-bind _ _ (ingest_loop-Keeps config _ start 0 0) (λ progress.
        Keeps-bind _ _
          (transact-Keeps (λ now books. (tt, record books { next_offset = some progress.0 }))
            (λ now books k. k))
          (λ _. Keeps-pure _)))

-- A run of the ingestion, whether it ends or fails midway, keeps the latest payout event of every entry
-- that has one, whatever the indexer and the database do.
pub ingest_once-KeepsPayouts :
    (env : Surroundings) (config : IngestionConfig) (o : Office)
    → KeepsPayouts o.books.events (ingest_once env config o).1.books.events
ingest_once-KeepsPayouts env config o =
    (ingest_once-Keeps env o.books.events config).at o (λ id has. (has, refl))
