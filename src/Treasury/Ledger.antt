-- ===== src/Treasury/Ledger.antt =====
-- The tables of treasury/src/database/schema.sql and the statements of
-- treasury/src/database/queries.ts. The newest row stands first. Of an entry's metadata the source
-- event's id is kept. Column widths and the list of entries are not modelled.
use agroasys_web3layer.Prelude.{
  ℕ, suc, String, Bool, true, false, ◌&&◌, ◌||◌, Option, none, some, List, [], ◌∷◌, find, any, map,
  ltb, ◌==◌, str_eq, if◌then◌else◌,
}
use agroasys_web3layer.Exec.{Result, ok, err, Exec, pure, ◌>>=◌, ◌>>◌}
use agroasys_web3layer.Treasury.Payout.{PayoutState, pending_review}

pub data TreasuryComponent : Type 0 where
  logistics platform_fee : TreasuryComponent

pub record LedgerEntry : Type 0 where
  pub id : ℕ
  pub entry_key : String
  pub trade_id : String
  pub tx_hash : String
  pub block_number : ℕ
  pub event_name : String
  pub component_type : TreasuryComponent
  pub amount_raw : String
  pub source_timestamp : ℕ
  pub source_event_id : String
  pub created_at : ℕ

pub record PayoutLifecycleEvent : Type 0 where
  pub id : ℕ
  pub ledger_entry_id : ℕ
  pub state : PayoutState
  pub note : Option String
  pub actor : Option String
  pub created_at : ℕ

-- What an upsert is given; no caller gives a note or an actor for the initial state.
pub record LedgerEntryData : Type 0 where
  pub entry_key : String
  pub trade_id : String
  pub tx_hash : String
  pub block_number : ℕ
  pub event_name : String
  pub component_type : TreasuryComponent
  pub amount_raw : String
  pub source_timestamp : ℕ
  pub source_event_id : String

pub record Books : Type 0 where
  pub entries : List LedgerEntry
  pub events : List PayoutLifecycleEvent
  pub next_entry_id : ℕ
  pub next_event_id : ℕ
  -- the row of `treasury_ingestion_state`, where there is one
  pub next_offset : Option ℕ

pub record IngestionEvent : Type 0 where
  pub id : String
  pub trade_id : String
  pub event_name : String
  pub tx_hash : Option String
  pub block_number : ℕ
  pub timestamp : ℕ
  pub released_logistics_amount : Option String
  pub paid_platform_fees : Option String

-- Each field is asked at a moment.
pub record Surroundings : Type 0 where
  -- the database is out of reach, with the error's text
  pub query_fault : ℕ → Option String
  pub now : ℕ → ℕ
  -- `fetchTreasuryEvents(limit, offset)`
  pub fetch_treasury_events : ℕ → ℕ → ℕ → Result String (List IngestionEvent)

pub record Office : Type 0 where
  pub books : Books
  pub moment : ℕ

abbrev pub Act : Type 0 → Type 0
Act A = Exec Office String A

abbrev entry_of : ℕ → ℕ → LedgerEntryData → LedgerEntry
entry_of id now d = record {
  id = id;
  entry_key = d.entry_key;
  trade_id = d.trade_id;
  tx_hash = d.tx_hash;
  block_number = d.block_number;
  event_name = d.event_name;
  component_type = d.component_type;
  amount_raw = d.amount_raw;
  source_timestamp = d.source_timestamp;
  source_event_id = d.source_event_id;
  created_at = now;
}

-- `INSERT INTO treasury_ledger_entries … ON CONFLICT (entry_key) DO UPDATE`, with the row.
unfoldable pub upsert_entry : ℕ → LedgerEntryData → Books → LedgerEntry × Books
upsert_entry now d books = elim (find (λ e. str_eq e.entry_key d.entry_key) books.entries) [
  | none ↦ (
    entry_of books.next_entry_id now d,
    record books {
      entries = entry_of books.next_entry_id now d ∷ books.entries;
      next_entry_id = suc books.next_entry_id;
    },
  )
  | some old ↦ (
    entry_of old.id old.created_at d,
    record books {
      entries =
          map (λ e. if str_eq e.entry_key d.entry_key then entry_of e.id e.created_at d else e)
            books.entries;
    },
  )
]

abbrev pub is_of : ℕ → PayoutLifecycleEvent → Bool
is_of id event = event.ledger_entry_id == id

unfoldable pub insert_event :
    ℕ → ℕ → PayoutState → Option String → Option String → Books → PayoutLifecycleEvent × Books
insert_event now id state note actor books =
    let event : PayoutLifecycleEvent = record {
      id = books.next_event_id;
      ledger_entry_id = id;
      state = state;
      note = note;
      actor = actor;
      created_at = now;
    } in
    (event, record books { events = event ∷ books.events; next_event_id = suc books.next_event_id })

-- The second statement of the transaction: the initial state of an entry that has none, with whether it
-- was made.
unfoldable pub insert_initial_state : ℕ → ℕ → Books → Bool × Books
unfolding insert_event
insert_initial_state now id books = if any (is_of id) books.events then (false, books) else (
  true,
  (insert_event now id pending_review (some "Auto-created from indexer ingestion")
      (some "system:indexer-ingest") books).1,
)

-- `value || null`
abbrev pub or_null : Option String → Option String
or_null none = none
or_null (some text) = if str_eq text "" then none else some text

-- `ORDER BY created_at DESC, id DESC LIMIT 1`
abbrev later : PayoutLifecycleEvent → Option PayoutLifecycleEvent → PayoutLifecycleEvent
later e none = e
later e (some f) =
    if ltb e.created_at f.created_at || e.created_at == f.created_at && ltb e.id f.id then f else e

unfoldable pub latest_event : ℕ → List PayoutLifecycleEvent → Option PayoutLifecycleEvent
latest_event id [] = none
latest_event id (e ∷ es) =
    let rest = latest_event id es in if is_of id e then some (later e rest) else rest

-- The transaction of an upsert.
abbrev pub record_entry : LedgerEntryData → ℕ → Books → (LedgerEntry × Bool) × Books
record_entry d now books =
    let (entry, books') = upsert_entry now d books in
    let (created, books'') = insert_initial_state now entry.id books' in ((entry, created), books'')

abbrev pub start_cursor : ℕ → Books → Unit {0} × Books
start_cursor now books = (tt, record books { next_offset = some 0 })

abbrev pub unless_failed {ℓ} :
    {A : Type ℓ} → Option String → Office → Result String A × Books → Result String A × Office
unless_failed none o (r, books) = (r, record { books = books; moment = suc o.moment })
unless_failed (some e) o (r, books) = (err e, record o { moment = suc o.moment })

module _ (env : Surroundings) where
  -- A statement, or a transaction that is rolled back where one of its statements fails.
  unfoldable pub transact : {A : Type 0} → (ℕ → Books → A × Books) → Act A
  transact statement o =
      let (a, books) = statement (env.now o.moment) o.books in
      unless_failed (env.query_fault o.moment) o (ok a, books)

  unfoldable pub upsert_ledger_entry_with_initial_state : LedgerEntryData → Act (LedgerEntry × Bool)
  unfolding transact
  upsert_ledger_entry_with_initial_state d = transact (record_entry d)

  unfoldable pub append_payout_state :
      ℕ → PayoutState → Option String → Option String → Act PayoutLifecycleEvent
  unfolding transact
  append_payout_state id state note actor =
      transact (λ now. insert_event now id state (or_null note) (or_null actor))

  unfoldable pub get_latest_payout_state : ℕ → Act (Option PayoutLifecycleEvent)
  unfolding transact
  get_latest_payout_state id = transact (λ now books. (latest_event id books.events, books))

  unfoldable pub get_ledger_entry_by_id : ℕ → Act (Option LedgerEntry)
  unfolding transact
  get_ledger_entry_by_id id = transact (λ now books. (find (λ e. e.id == id) books.entries, books))

  unfoldable pub offset_or_start : Option ℕ → Act ℕ
  unfolding transact ◌>>=◌ pure
  offset_or_start (some offset) = pure offset
  offset_or_start none = do transact start_cursor; pure 0

  unfoldable pub get_ingestion_offset : Act ℕ
  unfolding transact offset_or_start ◌>>=◌ pure
  get_ingestion_offset = do
    row ← transact (λ now books. (books.next_offset, books))
    offset_or_start row

  unfoldable pub set_ingestion_offset : ℕ → Act (Unit {0})
  unfolding transact
  set_ingestion_offset offset =
      transact (λ now books. (tt, record books { next_offset = some offset }))
