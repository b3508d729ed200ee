-- ===== src/Treasury/Ingestion.antt =====
-- treasury/src/core/ingestion.ts. The requests to the indexer are `fetch_treasury_events`.
pub mod Fuel
pub mod Lifecycle
use agroasys_web3layer.Prelude.{
  ℕ, zero, suc, ◌+◌, ◌-◌, String, Bool, true, false, ◌&&◌, not, Option, none, some, List, [], ◌∷◌,
  length, min, ltb, str_eq, if◌then◌else◌, ◌<>◌,
}
use agroasys_web3layer.Exec.{Result, ok, err, Exec, pure, lift, ◌>>=◌, ◌>>◌}
use agroasys_web3layer.Treasury.Ledger.{
  TreasuryComponent, logistics, platform_fee, LedgerEntryData, IngestionEvent, Surroundings, Office,
  Act, or_null, upsert_ledger_entry_with_initial_state, get_ingestion_offset, set_ingestion_offset,
}

pub record IngestionConfig : Type 0 where
  pub ingest_batch_size : ℕ
  pub ingest_max_events : ℕ

-- The component in lower case.
abbrev component_key : TreasuryComponent → String
component_key logistics = "logistics"
component_key platform_fee = "platform_fee"

unfoldable pub build_entry_key : String → TreasuryComponent → String
build_entry_key event_id component = event_id <> ":" <> component_key component

abbrev pub data_of : IngestionEvent → TreasuryComponent → String → String → LedgerEntryData
unfolding build_entry_key
data_of e component tx_hash amount = record {
  entry_key = build_entry_key e.id component;
  trade_id = e.trade_id;
  tx_hash = tx_hash;
  block_number = e.block_number;
  event_name = e.event_name;
  component_type = component;
  amount_raw = amount;
  source_timestamp = e.timestamp;
  source_event_id = e.id;
}

-- The amount of an event of the name, where it is truthy.
abbrev pub amount_for : String → IngestionEvent → Option String → Option String
amount_for name e amount = if str_eq e.event_name name then or_null amount else none

abbrev pub count : Bool → ℕ
count true = 1
count false = 0

-- The offset, and what was fetched and inserted.
abbrev pub Progress : Type 0
Progress = ℕ × ℕ × ℕ

module _ (env : Surroundings) where
  -- One of the two `if`s: how many initial states it made, or that it went on to the next event.
  post : IngestionEvent → TreasuryComponent → Option String → Option String → Act (Option ℕ)
  post e component none tx_hash = pure (some 0)
  post e component (some amount) none = pure none
  post e component (some amount) (some hash) = do
    upserted ← upsert_ledger_entry_with_initial_state env (data_of e component hash amount)
    pure (some (count upserted.1))

  post_fees : IngestionEvent → Option ℕ → Act ℕ
  unfolding post
  post_fees e none = pure 0
  post_fees e (some n) = do
    fees ←
        post e platform_fee (amount_for "PlatformFeesPaidStage1" e e.paid_platform_fees)
          (or_null e.tx_hash)
    pure (n + elim fees [ none ↦ 0 | some m ↦ m ])

  -- The body of the `for`.
  pub ingest_event : IngestionEvent → Act ℕ
  unfolding post post_fees
  ingest_event e = do
    n ←
        post e logistics (amount_for "FundsReleasedStage1" e e.released_logistics_amount)
          (or_null e.tx_hash)
    post_fees e n

  pub ingest_events : List IngestionEvent → Act ℕ
  unfolding ingest_event
  ingest_events [] = pure 0
  ingest_events (e ∷ es) = do n ← ingest_event e; m ← ingest_events es; pure (n + m)

  fetch : ℕ → ℕ → Act (List IngestionEvent)
  fetch limit offset o =
      (env.fetch_treasury_events o.moment limit offset, record o { moment = suc o.moment })

  -- The rest of a round, with the loop's next round.
  after_fetch : (ℕ → ℕ → ℕ → Act Progress) → ℕ → List IngestionEvent → ℕ → ℕ → ℕ → Act Progress
  unfolding ingest_events
  after_fetch next limit [] offset fetched inserted = pure (offset, fetched, inserted)
  after_fetch next limit (e ∷ es) offset fetched inserted = do
    n ← ingest_events (e ∷ es)
    let k = length (e ∷ es)
    if ltb k limit
        then pure (offset + k, fetched + k, inserted + n)
        else next (offset + k) (fetched + k) (inserted + n)

  module _ (config : IngestionConfig) where
    -- The `while`. The fuel counts rounds.
    pub ingest_loop : ℕ → ℕ → ℕ → ℕ → Act Progress
    unfolding fetch after_fetch
    ingest_loop zero offset fetched inserted = pure (offset, fetched, inserted)
    ingest_loop (suc fuel) offset fetched inserted =
        let limit = min config.ingest_batch_size (config.ingest_max_events - fetched) in
        if ltb fetched config.ingest_max_events
        then (do
          events ← fetch limit offset
          after_fetch (ingest_loop fuel) limit events offset fetched inserted)
        else pure (offset, fetched, inserted)

    -- What is fetched and what is inserted.
    pub ingest_once : Act (ℕ × ℕ)
    unfolding ingest_loop
    ingest_once = do
      start ← get_ingestion_offset env
      progress ← ingest_loop config.ingest_max_events start 0 0
      set_ingestion_offset env progress.0
      pure (progress.1, progress.2)
