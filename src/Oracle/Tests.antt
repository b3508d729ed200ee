-- ===== src/Oracle/Tests.antt =====
-- Concrete runs of the oracle: one environment in which the trade 7 goes through its stages as the
-- moments pass, and the theorems at it.
use agroasys_web3layer.Prelude.{
  ℕ, ◌+◌, ◌≤◌, String, Bool, true, false, ◌≡◌, refl, ◌⊎◌, ◌↔◌, Option, none, some, List, [], ◌∷◌,
  arith, ltb, if◌then◌else◌,
}
use agroasys_web3layer.Exec.{ok}
use agroasys_web3layer.Oracle.Types.{
  Trade, TradeStatus, Trigger, TriggerRequest, TriggerResponse, TriggerStatus, release_stage_1,
  finalize_trade, submitted, confirmed, pending, exhausted_needs_redrive,
}
use agroasys_web3layer.Oracle.Validator.{validate_trade_state}
use agroasys_web3layer.Oracle.Validator.States.{IsAllowed, validate_trade_state-IsAllowed}
use agroasys_web3layer.Oracle.Backoff.{calculate_backoff, calculate_backoff_bounds}
use agroasys_web3layer.Oracle.Table.{row_by_key}
use agroasys_web3layer.Oracle.Table.Unique.{IsUnique}
use agroasys_web3layer.Oracle.Services.{Environment, World, existing_trade}
use agroasys_web3layer.Oracle.Manager.{Config, execute_with_retry, build_response_from_trigger}
use agroasys_web3layer.Oracle.Manager.Justified.{AllJustified}
use agroasys_web3layer.Oracle.Manager.Stores.{sends, HasStored}
use agroasys_web3layer.Oracle.Manager.Settles.{IsFinal, execute_with_retry-IsSettled}
use agroasys_web3layer.Oracle.Requests.{resume_after_approval, handle_redrive}
use agroasys_web3layer.Oracle.Requests.Answers.{resume_after_approval-processed}
use agroasys_web3layer.Oracle.Requests.Redrive.{handle_redrive-refused}
use agroasys_web3layer.Oracle.Controller.{
  ApiCall, release_stage_1_call, redrive_call, reject_call, serve_call, serve,
}
use agroasys_web3layer.Oracle.Controller.Approval.{serve-Unsent}
use agroasys_web3layer.Oracle.Controller.Replies.{Replies, serve_call-Replies}
use agroasys_web3layer.Oracle.Worker.{
  WorkerConfig, Watch, graphql_errors, find_event, check_confirmation,
}
use agroasys_web3layer.Oracle.Worker.Rate.{IsSpaced, asked, asked-IsSpaced}
use agroasys_web3layer.Oracle.Worker.Ends.{check_confirmation-HasEnded}
use agroasys_web3layer.Oracle.Worker.Waits.{check_confirmation-waits}
use agroasys_web3layer.Oracle.System.{Event, call, poll, run, run-IsUnique, run-AllJustified}

abbrev trade_at : TradeStatus → Option ℕ → Trade
trade_at status arrival = record {
  trade_id = "7";
  buyer = "0xb0b";
  supplier = "0x5e11";
  status = status;
  total_amount_locked = 1000;
  logistics_amount = 100;
  platform_fees_amount = 10;
  supplier_first_tranche = 400;
  supplier_second_tranche = 490;
  ricardian_hash = "0xabc";
  created_at = 0;
  arrival_timestamp = arrival;
}

-- Every answer is at once, the clock reads an hour, and the chain's trade is LOCKED.
abbrev sunny : Environment
sunny = record {
  read_trade = λ n id. ok (some (trade_at TradeStatus.locked none));
  send_action = λ n kind id. ok (record { tx_hash = "0xfeed"; block_number = 12 });
  query_fault = λ n. none;
  now = λ n. 3600000 + n;
  random_id = λ n. if ltb n 4 then "a" else "b";
  random_below = λ n m. 0;
  to_lower_case = λ s. s;
}

abbrev automatic : Config
automatic = record {
  max_attempts = 3;
  base_delay_ms = 1000;
  has_notifier = true;
  manual_approval_enabled = false;
}

abbrev manual : Config
manual = record automatic { manual_approval_enabled = true }

abbrev deaf : WorkerConfig
deaf = record {
  has_notifier = true;
  ask_indexer = λ n hash. graphql_errors;
  age_minutes_text = λ now since. "60.0";
}

abbrev row : TriggerStatus → Trigger
row status = record {
  id = 1;
  action_key = "RELEASE_STAGE_1:7";
  request_id = "r";
  idempotency_key = "RELEASE_STAGE_1:7:a";
  trade_id = "7";
  trigger_type = release_stage_1;
  request_hash = none;
  attempt_count = 1;
  status = status;
  tx_hash = some "0xfeed";
  block_number = some 12;
  indexer_confirmed = false;
  indexer_confirmed_at = none;
  indexer_event_id = none;
  last_error = none;
  error_type = none;
  on_chain_verified = false;
  on_chain_verified_at = none;
  created_at = 0;
  submitted_at = some 1000;
  confirmed_at = none;
  updated_at = 1000;
  approved_by = none;
  approved_at = none;
  rejected_by = none;
  rejected_at = none;
  rejection_reason = none;
}

abbrev holding : List Trigger → World
holding rows = record {
  table = record { rows = rows; next_id = 2 };
  moment = 0;
  chain_log = [];
  notices = [];
  sleeps = [];
}

abbrev watching : List Trigger → Watch
watching rows = record { world = holding rows; checks = [] }

abbrev history : List Event
history =
    call (release_stage_1_call (some "7") (some "r") none)
    ∷ poll
    ∷ call (redrive_call (some "7") (some release_stage_1) (some "r") none)
    ∷ []

run-IsUnique_example : IsUnique (run sunny automatic deaf history (watching [])).world.table.rows
run-IsUnique_example =
    run-IsUnique sunny automatic deaf history (watching []) (record { keys = tt; actions = tt })

run-AllJustified_example :
    AllJustified sunny (run sunny automatic deaf history (watching [])).world.chain_log
run-AllJustified_example = run-AllJustified sunny automatic deaf history (watching []) tt

execute_with_retry-IsSettled_example :
    let (r, w') =
      execute_with_retry sunny automatic
        (row pending)
        "RELEASE_STAGE_1:7"
        (holding (row pending ∷ [])) in
    (response : TriggerResponse) × (r ≡ ok response)
    × IsFinal response.status
    × ((u : Trigger) × (row_by_key "RELEASE_STAGE_1:7:a" w'.table.rows ≡ some u)
        × (u.status ≡ response.status))
    × (sends w'.chain_log ≤ 0 + 3)
execute_with_retry-IsSettled_example =
    execute_with_retry-IsSettled sunny automatic (row pending) "RELEASE_STAGE_1:7"
      (holding (row pending ∷ [])) (λ n. refl) (omega arith) (row pending, refl)

abbrev guarded_calls : List ApiCall
guarded_calls =
    release_stage_1_call (some "7") (some "r") none
    ∷ release_stage_1_call (some "7") (some "s") none
    ∷ reject_call (some "RELEASE_STAGE_1:7:a") (some "admin") none
    ∷ []

serve-Unsent_example : sends (serve sunny manual guarded_calls (holding [])).chain_log ≡ 0
serve-Unsent_example =
    serve-Unsent sunny manual refl guarded_calls (holding []) (tt, (tt, (tt, tt)))

abbrev stage_1_request : Bool → TriggerRequest
stage_1_request is_redrive = record {
  trade_id = "7";
  request_id = "again";
  trigger_type = release_stage_1;
  request_hash = none;
  is_redrive = is_redrive;
}

resume_after_approval-processed_example :
    resume_after_approval sunny manual "RELEASE_STAGE_1:7:a" "admin" (holding (row submitted ∷ []))
    ≡ (
      ok (build_response_from_trigger (row submitted) "Trigger already processed"),
      record (holding (row submitted ∷ [])) { moment = 2 },
    )
resume_after_approval-processed_example =
    resume_after_approval-processed sunny manual "RELEASE_STAGE_1:7:a" "admin"
      (holding (row submitted ∷ [])) (row submitted) refl refl refl refl

-- The trade has moved on to the next stage.
abbrev moved_on : Environment
moved_on = record sunny { read_trade = λ n id. ok (some (trade_at TradeStatus.in_transit none)) }

handle_redrive-refused_example :
    let w = holding (row exhausted_needs_redrive ∷ []) in
    let (answer, w') =
      handle_redrive moved_on automatic (row exhausted_needs_redrive) (stage_1_request true) w in
    ((response : TriggerResponse) × (answer ≡ ok response) × (response.status ≡ confirmed))
    × ((u : Trigger) × (row_by_key "RELEASE_STAGE_1:7:a" w'.table.rows ≡ some u)
        × (u.status ≡ confirmed))
    × (sends w'.chain_log ≤ 0)
unfolding existing_trade validate_trade_state
handle_redrive-refused_example =
    handle_redrive-refused moved_on automatic (row exhausted_needs_redrive) (stage_1_request true)
      (holding (row exhausted_needs_redrive ∷ [])) (some (trade_at TradeStatus.in_transit none))
      (trade_at TradeStatus.in_transit none)
      "Cannot release stage 1: Trade 7 is in status IN_TRANSIT, expected LOCKED" (λ n. refl)
      (row exhausted_needs_redrive, refl) refl refl refl

abbrev arrived : Trade
arrived = trade_at TradeStatus.arrival_confirmed (some 5000)

validate_trade_state-IsAllowed_example :
    (validate_trade_state arrived finalize_trade 86405001 ≡ ok tt)
    ↔ IsAllowed arrived finalize_trade 86405001
validate_trade_state-IsAllowed_example =
    validate_trade_state-IsAllowed arrived finalize_trade 86405001

check_confirmation-HasEnded_example :
    let (r, s') = check_confirmation sunny deaf (row submitted) (watching (row submitted ∷ [])) in
    (r ≡ ok tt)
    × (HasStored "RELEASE_STAGE_1:7:a" 0 confirmed s'.world
        ⊎ HasStored "RELEASE_STAGE_1:7:a" 0 exhausted_needs_redrive s'.world)
check_confirmation-HasEnded_example =
    check_confirmation-HasEnded sunny deaf (row submitted) (watching (row submitted ∷ []))
      (λ n. refl) (row submitted, refl) refl (omega arith)

-- The clock reads a minute.
abbrev early : Environment
early = record sunny { now = λ n. 60000 }

check_confirmation-waits_example :
    check_confirmation early deaf (row submitted) (watching (row submitted ∷ []))
    ≡ (ok tt, record { world = record (holding (row submitted ∷ [])) { moment = 2 }; checks = [] })
unfolding find_event
check_confirmation-waits_example =
    check_confirmation-waits early deaf (row submitted) (watching (row submitted ∷ [])) refl
      (omega arith) refl

abbrev three_checks : List (String × ℕ × ℕ)
three_checks = ("7", 1300000, 0) ∷ ("7", 1310000, 0) ∷ ("7", 1700000, 0) ∷ []

asked-IsSpaced_example : IsSpaced none (asked "7" three_checks [])
asked-IsSpaced_example = asked-IsSpaced "7" three_checks []

calculate_backoff_bounds_example :
    (4000 ≤ calculate_backoff (λ m. 0) 3 1000 30000)
    × (calculate_backoff (λ m. 0) 3 1000 30000 ≤ 30000)
calculate_backoff_bounds_example = calculate_backoff_bounds (λ m. 0) 3 1000 30000 (λ m h. h)

serve_call-Replies_example :
    Replies true
      (serve_call sunny automatic (release_stage_1_call (some "7") none (some "signature")))
      (holding [])
serve_call-Replies_example =
    serve_call-Replies sunny automatic (release_stage_1_call (some "7") none (some "signature"))
      (holding [])
