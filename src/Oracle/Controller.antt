-- ===== src/Oracle/Controller.antt =====
-- oracle/src/api/controller.ts: the six routes over `TriggerManager`. The `timestamp` of a reply is
-- left out.
pub mod Safety
pub mod Approval
pub mod Replies
use agroasys_web3layer.Prelude.{
  ℕ, String, Bool, true, false, ◌||◌, Option, none, some, List, [], ◌∷◌, str_eq, if◌then◌else◌,
}
use agroasys_web3layer.Exec.{Result, ok, err, Exec, pure, catch, ◌>>=◌}
use agroasys_web3layer.Oracle.Types.{
  TriggerType, TriggerRequest, TriggerResponse, release_stage_1, confirm_arrival, finalize_trade,
  unknown_type, type_name,
}
use agroasys_web3layer.Oracle.Errors.{
  JsError, oracle, foreign, validation_error, network_error, contract_error, error_message,
  error_name,
}
use agroasys_web3layer.Oracle.Services.{Environment, World, Effect}
use agroasys_web3layer.Oracle.Manager.{Config}
use agroasys_web3layer.Oracle.Requests.{
  execute_trigger, resume_after_approval, reject_pending_trigger,
}

pub data Reply : Type 0 where
  -- `res.status(200)` with the response
  accepted : TriggerResponse → Reply
  -- a status, `error` and `message`
  refused : ℕ → String → String → Reply

-- The request bodies, with the fields that may be missing, and the request's HMAC signature.
pub data ApiCall : Type 0 where
  release_stage_1_call confirm_arrival_call finalize_trade_call :
      Option String → Option String → Option String → ApiCall
  redrive_call : Option String → Option TriggerType → Option String → Option String → ApiCall
  approve_call : Option String → Option String → ApiCall
  reject_call : Option String → Option String → Option String → ApiCall

-- `!value`
abbrev is_missing : Option String → Bool
is_missing none = true
is_missing (some text) = str_eq text ""

abbrev text_of : Option String → String
text_of none = ""
text_of (some text) = text

abbrev lacks_type : Option TriggerType → Bool
lacks_type none = true
lacks_type (some (unknown_type name)) = str_eq name ""
lacks_type (some kind) = false

abbrev type_of : Option TriggerType → TriggerType
type_of none = unknown_type ""
type_of (some kind) = kind

-- `error instanceof ValidationError ? 400 : 500`
abbrev pub error_status : JsError → ℕ
error_status (oracle (validation_error m)) = 400
error_status (oracle (network_error m)) = 500
error_status (oracle (contract_error m terminal)) = 500
error_status (foreign e) = 500

-- `error.name || fallback`
abbrev name_or : String → String → String
name_or name fallback = if str_eq name "" then fallback else name

-- The `catch` of a route.
reply_error : String → JsError → Effect Reply
reply_error fallback e =
    pure (refused (error_status e) (name_or (error_name e) fallback) (error_message e))

pub reply_with : String → Effect TriggerResponse → Effect Reply
unfolding reply_error
reply_with fallback m = catch (do r ← m; pure (accepted r)) (reply_error fallback)

pub bad_request : String → Effect Reply
bad_request text = pure (refused 400 "ValidationError" text)

module _ (env : Environment) (config : Config) where
  trigger_route : TriggerType → Option String → Option String → Option String → Effect Reply
  unfolding reply_with bad_request
  trigger_route kind trade_id request_id signature =
      if is_missing trade_id || is_missing request_id
      then bad_request "tradeId and requestId are required"
      else reply_with "ContractError" (
          execute_trigger env config (record {
            trade_id = text_of trade_id;
            request_id = text_of request_id;
            trigger_type = kind;
            request_hash = signature;
            is_redrive = false;
          }))

  redrive_route : Option String → Option TriggerType → Option String → Option String → Effect Reply
  unfolding reply_with bad_request
  redrive_route trade_id kind request_id signature =
      if is_missing trade_id || lacks_type kind || is_missing request_id
      then bad_request "tradeId, triggerType, and requestId are required"
      else reply_with "ContractError" (
          execute_trigger env config (record {
            trade_id = text_of trade_id;
            request_id = text_of request_id;
            trigger_type = type_of kind;
            request_hash = signature;
            is_redrive = true;
          }))

  approve_route : Option String → Option String → Effect Reply
  unfolding reply_with bad_request
  approve_route k actor =
      if is_missing k || is_missing actor
      then bad_request "idempotencyKey and actor are required"
      else reply_with "InternalError" (resume_after_approval env config (text_of k) (text_of actor))

  reject_route : Option String → Option String → Option String → Effect Reply
  unfolding reply_with bad_request
  reject_route k actor reason =
      if is_missing k || is_missing actor
      then bad_request "idempotencyKey and actor are required"
      else reply_with "InternalError"
          (reject_pending_trigger env config (text_of k) (text_of actor) reason)

  pub serve_call : ApiCall → Effect Reply
  unfolding trigger_route redrive_route approve_route reject_route
  serve_call (release_stage_1_call id request signature) =
      trigger_route release_stage_1 id request signature
  serve_call (confirm_arrival_call id request signature) =
      trigger_route confirm_arrival id request signature
  serve_call (finalize_trade_call id request signature) =
      trigger_route finalize_trade id request signature
  serve_call (redrive_call id kind request signature) = redrive_route id kind request signature
  serve_call (approve_call k actor) = approve_route k actor
  serve_call (reject_call k actor reason) = reject_route k actor reason

  -- The world after a list of calls, one at a time.
  pub serve : List ApiCall → World → World
  serve [] w = w
  serve (call ∷ calls) w = serve calls (serve_call call w).1
