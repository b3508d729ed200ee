-- ===== src/Gateway/Idempotency.antt =====
-- gateway/src/middleware/idempotency.ts over the store of gateway/src/core/idempotencyStore.ts: which
-- request runs its handler, which one is replayed, and what becomes of a key when a response ends.
-- A body is the text that is stored for it. The admission of a request, its queries included, runs to
-- its end before the next event.
pub mod Once
mod Tests
use Prim.Native.Char.{Char, code}
use Prim.Native.String.{char_at}
use agroasys_web3layer.Prelude.{
  ℕ, zero, suc, ◌-◌, String, Bool, true, false, not, ◌&&◌, ◌||◌, Option, none, some, List, [], ◌∷◌,
  leb, str_eq, if◌then◌else◌, ◌<>◌, is_empty, trim, ltb, ◌==◌,
}
use agroasys_web3layer.Gateway.{Failure, invalid, conflict_error}

pub record IdempotencyRecord : Type 0 where
  pub idempotency_key : String
  pub request_method : String
  pub request_path : String
  pub request_fingerprint : String
  pub request_id : String
  pub response_status : Option ℕ
  pub content_type : Option String
  pub response_body : String
  pub completed_at : Option ℕ
  pub created_at : ℕ

pub record Request : Type 0 where
  -- the header `Idempotency-Key`
  pub idempotency_key : Option String
  pub method : String
  pub path : String
  pub raw_body : String
  pub request_id : String

pub record Response : Type 0 where
  pub status : ℕ
  pub content_type : Option String
  pub body : String

-- What becomes of a request: its handler runs, a stored response is sent, or an error goes to `next`.
pub data Answer : Type 0 where
  proceeds : Answer
  replayed : Response → Answer
  fails : Failure → Answer

-- The store, with the number of handlers that run for a key and of those that were started for it.
pub record Gate : Type 0 where
  pub records : String → Option IdempotencyRecord
  pub running : String → ℕ
  pub started : String → ℕ
  pub moment : ℕ

-- The gate before the first request.
abbrev pub fresh_gate : Gate
fresh_gate = record { records = λ k. none; running = λ k. 0; started = λ k. 0; moment = 0 }

abbrev pub set {ℓ} : {A : Type ℓ} → String → A → (String → A) → String → A
set key a f k = if str_eq k key then a else f k

abbrev upper_char : Char → Char
upper_char c =
    if leb 97 (code c) && leb (code c) 122
    then char_at "ABCDEFGHIJKLMNOPQRSTUVWXYZ" (code c - 97)
    else c

-- `method.toUpperCase()`
abbrev to_upper_case : String → String
to_upper_case String.[] = String.[]
to_upper_case (String.◌∷◌ c s) = String.◌∷◌ (upper_char c) (to_upper_case s)

-- `req.header('Idempotency-Key')?.trim()`, where it is not empty.
abbrev pub key_of : Option String → Option String
key_of none = none
key_of (some header) = if is_empty (trim header) then none else some (trim header)

abbrev pub response_of : IdempotencyRecord → Option ℕ → Option ℕ → Option Response
response_of e none status = none
response_of e (some at) none = none
response_of e (some at) (some status) =
    some (record { status = status; content_type = e.content_type; body = e.response_body })

-- `existing.completedAt && existing.responseStatus !== null`
abbrev pub stored_response : IdempotencyRecord → Option Response
stored_response e = response_of e e.completed_at e.response_status

-- The store's row of a response: `complete`.
abbrev pub completed_record : Response → ℕ → IdempotencyRecord → IdempotencyRecord
completed_record response now e = record e {
  response_status = some response.status;
  content_type = response.content_type;
  response_body = response.body;
  completed_at = some now;
}

abbrev pub complete_row : Response → ℕ → Option IdempotencyRecord → Option IdempotencyRecord
complete_row response now none = none
complete_row response now (some e) = some (completed_record response now e)

abbrev pub unless_completed : IdempotencyRecord → Option ℕ → Option IdempotencyRecord
unless_completed e none = none
unless_completed e (some at) = some e

-- `releasePending`: a completed row stays.
abbrev pub release_row : Option IdempotencyRecord → Option IdempotencyRecord
release_row none = none
release_row (some e) = unless_completed e e.completed_at

-- What else happens: a request comes, a response ends, or a response is lost, since the connection closes
-- first or the store does not answer at its end.
pub data Event : Type 0 where
  arrives : Request → Event
  ends : String → Response → Event
  is_lost : String → Event

-- The hash, the clock, and the failure of the store at a moment.
module _ (sha256 : String → String) (now : ℕ → ℕ) (down : ℕ → Option Failure) where
  abbrev pub build_request_fingerprint : String → String → String → String
  build_request_fingerprint method path body =
      sha256 (to_upper_case method <> "\n" <> path <> "\n" <> body)

  abbrev pub fingerprint_of : Request → String
  fingerprint_of r = build_request_fingerprint r.method r.path r.raw_body

  abbrev pub pending_record : String → Request → ℕ → IdempotencyRecord
  pending_record key r at = record {
    idempotency_key = key;
    request_method = r.method;
    request_path = r.path;
    request_fingerprint = fingerprint_of r;
    request_id = r.request_id;
    response_status = none;
    content_type = none;
    response_body = "";
    completed_at = none;
    created_at = at;
  }

  abbrev pub is_same : Request → IdempotencyRecord → Bool
  is_same r e =
      str_eq e.request_fingerprint (fingerprint_of r)
      && str_eq e.request_method r.method
      && str_eq e.request_path r.path

  abbrev pub tick : Gate → Gate
  tick g = record g { moment = suc g.moment }

  -- A query of the store that is answered, or its error, which goes to `next`.
  abbrev pub unless_down : Option Failure → Answer × Gate → Gate → Answer × Gate
  unless_down none r g = r
  unless_down (some e) r g = (fails e, tick g)

  -- The reply to a request whose key is taken by a request that is the same; a replay is noted first:
  -- `markReplay`.
  abbrev pub reply_stored : Option Response → Gate → Answer × Gate
  reply_stored none g =
      (fails (conflict_error "A request with this idempotency key is already in progress"), g)
  reply_stored (some response) g = unless_down (down g.moment) (replayed response, tick g) g

  unfoldable pub check_stored : Request → IdempotencyRecord → Gate → Answer × Gate
  check_stored r e g =
      if is_same r e
      then reply_stored (stored_response e) g
      else (fails (conflict_error "Idempotency key is already in use for a different request"), g)

  -- `createPending`: the insertion, then, on a conflict, the look-up of the row that is there.
  unfoldable pub reserve : String → Request → Option IdempotencyRecord → Gate → Answer × Gate
  unfolding check_stored
  reserve key r none g =
      unless_down (down g.moment)
        (
          proceeds,
          record g {
            records = set key (some (pending_record key r (now g.moment))) g.records;
            running = set key (suc (g.running key)) g.running;
            started = set key (suc (g.started key)) g.started;
            moment = suc g.moment;
          },
        )
        g
  reserve key r (some e) g =
      unless_down (down g.moment)
        (unless_down (down (suc g.moment)) (check_stored r e (tick (tick g))) (tick g)) g

  abbrev pub admit_key : Option String → Request → Gate → Answer × Gate
  admit_key none r g = (fails (invalid "Idempotency-Key header is required for mutation routes"), g)
  admit_key (some key) r g = reserve key r (g.records key) g

  unfoldable pub admit : Request → Gate → Answer × Gate
  unfolding reserve
  admit r g = admit_key (key_of r.idempotency_key) r g

  -- The listener of `finish`.
  unfoldable pub finish : String → Response → Gate → Gate
  finish key response g = record g {
    records =
        set key
          (if leb 500 response.status
            then release_row (g.records key)
            else complete_row response (now g.moment) (g.records key))
          g.records;
    running = set key (g.running key - 1) g.running;
    moment = suc g.moment;
  }

  unfoldable pub lose : String → Gate → Gate
  lose key g = record g { running = set key (g.running key - 1) g.running; moment = suc g.moment }

  -- A response ends only where a handler runs.
  unfoldable pub happen : Event → Gate → Gate
  unfolding admit finish lose
  happen (arrives r) g = (admit r g).1
  happen (ends key response) g = if g.running key == 0 then g else finish key response g
  happen (is_lost key) g = if g.running key == 0 then g else lose key g

  unfoldable pub happen_all : List Event → Gate → Gate
  unfolding happen
  happen_all [] g = g
  happen_all (e ∷ events) g = happen_all events (happen e g)
