-- ===== src/Treasury/Tests.antt =====
-- A run of the treasury: two events of the trade 7, and the payout of one of their entries.
use agroasys_web3layer.Prelude.{◌≡◌, ◌↔◌, none, some, [], ◌∷◌, arith, ◌==◌, if◌then◌else◌}
use agroasys_web3layer.Exec.{ok}
use agroasys_web3layer.Treasury.Payout.{
  processing, paid, assert_valid_transition, Step, assert_valid_transition-Step,
}
use agroasys_web3layer.Treasury.Ledger.{IngestionEvent, Surroundings, Office}
use agroasys_web3layer.Treasury.Ingestion.{IngestionConfig, ingest_loop, ingest_once}
use agroasys_web3layer.Treasury.Ingestion.Fuel.{ingest_loop-enough}
use agroasys_web3layer.Treasury.Ingestion.Lifecycle.{KeepsPayouts, ingest_once-KeepsPayouts}
use agroasys_web3layer.Treasury.Controller.{
  AppendReply, number, append_state, IsExtended, append_state-IsExtended,
}

abbrev release : IngestionEvent
release = record {
  id = "e1";
  trade_id = "7";
  event_name = "FundsReleasedStage1";
  tx_hash = some "0xfeed";
  block_number = 12;
  timestamp = 5000;
  released_logistics_amount = some "100";
  paid_platform_fees = none;
}

abbrev fees : IngestionEvent
fees = record release {
  id = "e2";
  event_name = "PlatformFeesPaidStage1";
  released_logistics_amount = none;
  paid_platform_fees = some "10";
}

abbrev quiet_day : Surroundings
quiet_day = record {
  query_fault = λ n. none;
  now = λ n. n;
  fetch_treasury_events = λ n limit offset. if offset == 0 then ok (release ∷ fees ∷ []) else ok [];
}

abbrev small_runs : IngestionConfig
small_runs = record { ingest_batch_size = 2; ingest_max_events = 5 }

abbrev empty_office : Office
empty_office = record {
  books = record {
    entries = [];
    events = [];
    next_entry_id = 1;
    next_event_id = 1;
    next_offset = none;
  };
  moment = 0;
}

abbrev after_ingestion : Office
after_ingestion = (ingest_once quiet_day small_runs empty_office).1

ingest_loop-enough_example :
    ingest_loop quiet_day small_runs 5 0 0 0 empty_office
    ≡ ingest_loop quiet_day small_runs 9 0 0 0 empty_office
ingest_loop-enough_example =
    ingest_loop-enough quiet_day small_runs 5 9 0 0 0 empty_office (omega arith) (omega arith)

ingest_once-KeepsPayouts_example :
    KeepsPayouts after_ingestion.books.events
      (ingest_once quiet_day small_runs after_ingestion).1.books.events
ingest_once-KeepsPayouts_example = ingest_once-KeepsPayouts quiet_day small_runs after_ingestion

append_state-IsExtended_example :
    let (r, o') =
      append_state quiet_day (number 1) "READY_FOR_PAYOUT" none (some "clerk") after_ingestion in
    ((reply : AppendReply) × (r ≡ ok reply)) × IsExtended after_ingestion.books o'.books
append_state-IsExtended_example =
    append_state-IsExtended quiet_day (number 1) "READY_FOR_PAYOUT" none (some "clerk")
      after_ingestion

assert_valid_transition-Step_example :
    (assert_valid_transition processing paid ≡ ok tt) ↔ Step processing paid
assert_valid_transition-Step_example = assert_valid_transition-Step processing paid
