-- ===== src/Oracle/Table.antt =====
-- The table `oracle_triggers` of oracle/src/database/schema.sql and the statements of
-- oracle/src/database/queries.ts, with the primary key and the partial unique index on active
-- action keys. The newest row stands first. Column widths are not modelled.
pub mod Unique
pub mod Statements
use agroasys_web3layer.Prelude.{
  ℕ, suc, String, Bool, true, false, not, ◌&&◌, ◌||◌, Option, none, some, List, [], ◌∷◌, any, find,
  take, ltb, str_eq, if◌then◌else◌, ◌<>◌,
}
use agroasys_web3layer.Exec.{Result, ok, err}
use agroasys_web3layer.Oracle.Types.{
  Trigger, TriggerStatus, TriggerType, unknown_type, CreateTriggerData, UpdateTriggerData, pending,
  executing, submitted, pending_approval, rejected, status_eq,
}
use agroasys_web3layer.Oracle.Errors.{JsError, foreign}

pub record Table : Type 0 where
  pub rows : List Trigger
  pub next_id : ℕ

-- The condition of `idx_active_action_key_unique`.
abbrev pub is_active : TriggerStatus → Bool
is_active pending = true
is_active executing = true
is_active submitted = true
is_active pending_approval = true
is_active _ = false

abbrev pub has_key : String → Trigger → Bool
has_key k t = str_eq t.idempotency_key k

abbrev pub is_active_for : String → Trigger → Bool
is_active_for action_key t = is_active t.status && str_eq t.action_key action_key

-- PostgreSQL's `unique_violation` and `check_violation`.
abbrev pub unique_violation : String → JsError
unique_violation constraint = foreign (record {
  name = "error";
  text = "duplicate key value violates unique constraint " <> constraint;
  code = some "23505";
  reason = none;
})

abbrev pub check_violation : JsError
check_violation = foreign (record {
  name = "error";
  text = "new row for relation oracle_triggers violates check constraint check_trigger_type";
  code = some "23514";
  reason = none;
})

abbrev is_known_type : TriggerType → Bool
is_known_type (unknown_type name) = false
is_known_type _ = true

-- The row of `INSERT INTO oracle_triggers`, with the defaults of its other columns.
abbrev new_row : ℕ → ℕ → CreateTriggerData → Trigger
new_row id now d = record {
  id = id;
  action_key = d.action_key;
  request_id = d.request_id;
  idempotency_key = d.idempotency_key;
  trade_id = d.trade_id;
  trigger_type = d.trigger_type;
  request_hash = d.request_hash;
  attempt_count = 0;
  status = d.status;
  tx_hash = none;
  block_number = none;
  indexer_confirmed = false;
  indexer_confirmed_at = none;
  indexer_event_id = none;
  last_error = none;
  error_type = none;
  on_chain_verified = false;
  on_chain_verified_at = none;
  created_at = now;
  submitted_at = none;
  confirmed_at = none;
  updated_at = now;
  approved_by = none;
  approved_at = none;
  rejected_by = none;
  rejected_at = none;
  rejection_reason = none;
}

-- The `INSERT` of `createTrigger`.
unfoldable pub insert_row : ℕ → CreateTriggerData → Table → Result JsError (Trigger × Table)
insert_row now d table =
    if any (has_key d.idempotency_key) table.rows
    then err (unique_violation "oracle_triggers_pkey")
    else if is_active d.status && any (is_active_for d.action_key) table.rows
    then err (unique_violation "idx_active_action_key_unique")
    else if not (is_known_type d.trigger_type)
    then err check_violation
    else ok (
      new_row table.next_id now d,
      record { rows = new_row table.next_id now d ∷ table.rows; next_id = suc table.next_id },
    )

abbrev set_column {ℓ} : {A : Type ℓ} → Option A → A → A
set_column none old = old
set_column (some new) old = new

abbrev set_nullable {ℓ} : {A : Type ℓ} → Option A → Option A → Option A
set_nullable none old = old
set_nullable (some new) old = some new

-- The `SET` list that `updateTrigger` builds from the fields that are given.
abbrev pub apply_update : UpdateTriggerData → ℕ → Trigger → Trigger
apply_update u now t = record t {
  status = set_column u.status t.status;
  attempt_count = set_column u.attempt_count t.attempt_count;
  tx_hash = set_nullable u.tx_hash t.tx_hash;
  block_number = set_nullable u.block_number t.block_number;
  indexer_confirmed = set_column u.indexer_confirmed t.indexer_confirmed;
  indexer_confirmed_at = set_nullable u.indexer_confirmed_at t.indexer_confirmed_at;
  indexer_event_id = set_nullable u.indexer_event_id t.indexer_event_id;
  last_error = set_nullable u.last_error t.last_error;
  error_type = set_nullable u.error_type t.error_type;
  submitted_at = set_nullable u.submitted_at t.submitted_at;
  confirmed_at = set_nullable u.confirmed_at t.confirmed_at;
  on_chain_verified = set_column u.on_chain_verified t.on_chain_verified;
  on_chain_verified_at = set_nullable u.on_chain_verified_at t.on_chain_verified_at;
  approved_by = set_nullable u.approved_by t.approved_by;
  approved_at = set_nullable u.approved_at t.approved_at;
  rejected_by = set_nullable u.rejected_by t.rejected_by;
  rejected_at = set_nullable u.rejected_at t.rejected_at;
  updated_at = now;
}

unfoldable pub set_row : (Trigger → Trigger) → String → List Trigger → List Trigger
set_row f k [] = []
set_row f k (t ∷ ts) = (if has_key k t then f t else t) ∷ set_row f k ts

-- The unique index refuses `new`, the row of key `k`, for another active row of its action.
unfoldable pub conflicts : String → Trigger → List Trigger → Bool
conflicts k new rows =
    is_active new.status && any (λ t. not (has_key k t) && is_active_for new.action_key t) rows

-- `UPDATE oracle_triggers SET … WHERE idempotency_key = k AND …`, with the row that it changed.
unfoldable pub update_row :
    (Trigger → Bool)
    → (Trigger → Trigger)
    → String
    → Table
    → Result JsError (Option Trigger × Table)
unfolding set_row conflicts
update_row where_clause f k table = elim (find (has_key k) table.rows) [
  | none ↦ ok (none, table)
  | some t ↦
      if not (where_clause t)
      then ok (none, table)
      else if conflicts k (f t) table.rows
      then err (unique_violation "idx_active_action_key_unique")
      else ok (some (f t), record table { rows = set_row f k table.rows })
]

abbrev pub always : Trigger → Bool
always t = true

unfoldable pub update_trigger_row :
    UpdateTriggerData → ℕ → String → Table → Result JsError (Option Trigger × Table)
unfolding update_row
update_trigger_row u now = update_row always (apply_update u now)

abbrev pub awaits_approval : Trigger → Bool
awaits_approval t = status_eq t.status pending_approval

abbrev pub approve_change : String → ℕ → Trigger → Trigger
approve_change actor now t = record t {
  status = pending;
  approved_by = some actor;
  approved_at = some now;
  updated_at = now;
}

abbrev pub reject_change : String → Option String → ℕ → Trigger → Trigger
reject_change actor reason now t = record t {
  status = rejected;
  rejected_by = some actor;
  rejected_at = some now;
  rejection_reason = reason;
  updated_at = now;
}

unfoldable pub approve_row : String → ℕ → String → Table → Result JsError (Option Trigger × Table)
unfolding update_row
approve_row actor now = update_row awaits_approval (approve_change actor now)

unfoldable pub reject_row :
    String → Option String → ℕ → String → Table → Result JsError (Option Trigger × Table)
unfolding update_row
reject_row actor reason now = update_row awaits_approval (reject_change actor reason now)

-- `SELECT … WHERE idempotency_key = k`
abbrev pub row_by_key : String → List Trigger → Option Trigger
row_by_key k rows = find (has_key k) rows

abbrev later : Trigger → Option Trigger → Trigger
later t none = t
later t (some u) = if ltb t.created_at u.created_at then u else t

-- `… WHERE action_key = a ORDER BY created_at DESC LIMIT 1`. Of rows made at one instant, which SQL
-- does not order, it takes the one inserted last.
unfoldable pub latest_by_action : String → List Trigger → Option Trigger
latest_by_action a [] = none
latest_by_action a (t ∷ ts) =
    let rest = latest_by_action a ts in if str_eq t.action_key a then some (later t rest) else rest

-- Rows of a status, the oldest first.
abbrev oldest_with : TriggerStatus → List Trigger → List Trigger → List Trigger
oldest_with s [] acc = acc
oldest_with s (t ∷ ts) acc = oldest_with s ts (if status_eq t.status s then t ∷ acc else acc)

-- `… WHERE status = s ORDER BY created_at ASC LIMIT n`, over rows inserted in the order of time.
unfoldable pub rows_by_status : TriggerStatus → ℕ → List Trigger → List Trigger
rows_by_status s limit rows = take limit (oldest_with s rows [])
