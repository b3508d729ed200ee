-- ===== src/Oracle/Controller/Replies.antt =====
-- The replies of the routes of oracle/src/api/controller.ts.
use agroasys_web3layer.Prelude.{String, Bool, true, false, ◌||◌, ◌≡◌, refl, if◌then◌else◌}
use agroasys_web3layer.Exec.{Result, ok, err, handle, pure, catch}
use agroasys_web3layer.Oracle.Types.{TriggerResponse}
use agroasys_web3layer.Oracle.Errors.{JsError}
use agroasys_web3layer.Oracle.Services.{Environment, World, Effect}
use agroasys_web3layer.Oracle.Manager.{Config}
use agroasys_web3layer.Oracle.Controller.{
  Reply, refused, ApiCall, release_stage_1_call, confirm_arrival_call, finalize_trade_call,
  redrive_call, approve_call, reject_call, is_missing, lacks_type, reply_error, reply_with,
  bad_request, trigger_route, redrive_route, approve_route, reject_route, serve_call,
}

-- A field that the route requires is missing.
abbrev pub is_incomplete : ApiCall → Bool
is_incomplete (release_stage_1_call id request signature) = is_missing id || is_missing request
is_incomplete (confirm_arrival_call id request signature) = is_missing id || is_missing request
is_incomplete (finalize_trade_call id request signature) = is_missing id || is_missing request
is_incomplete (redrive_call id kind request signature) =
    is_missing id || lacks_type kind || is_missing request
is_incomplete (approve_call k actor) = is_missing k || is_missing actor
is_incomplete (reject_call k actor reason) = is_missing k || is_missing actor

-- The effect replies, and where the test holds it replies 400 and changes nothing.
abbrev pub Replies : Bool → Effect Reply → World → Type 0
Replies b m w =
    ((reply : Reply) × ((m w).0 ≡ ok reply))
    × (b ≡ true → (text : String) × (m w ≡ (ok (refused 400 "ValidationError" text), w)))

handled :
    (f : String) (r : Result JsError Reply) (w : World)
    → (reply : Reply) × ((handle r (reply_error f) w).0 ≡ ok reply)
unfolding reply_error pure
handled f (ok reply) w = (reply, refl)
handled f (err e) w = (_, refl)

guarded :
    (b : Bool) (text f : String) (m : Effect TriggerResponse) (w : World)
    → Replies b (if b then bad_request text else reply_with f m) w
unfolding bad_request reply_with catch pure
guarded true text f m w = ((_, refl), λ h. (text, refl))
guarded false text f m w = (handled f _ _, λ h. cc)

-- Every call is answered, whatever the chain, the database and the clock do, and a call that lacks a
-- required field is refused with status 400 and changes nothing.
pub serve_call-Replies :
    (env : Environment) (config : Config) (call : ApiCall) (w : World)
    → Replies (is_incomplete call) (serve_call env config call) w
unfolding serve_call trigger_route redrive_route approve_route reject_route
serve_call-Replies env config (release_stage_1_call id request signature) w =
    guarded (is_missing id || is_missing request) _ _ _ w
serve_call-Replies env config (confirm_arrival_call id request signature) w =
    guarded (is_missing id || is_missing request) _ _ _ w
serve_call-Replies env config (finalize_trade_call id request signature) w =
    guarded (is_missing id || is_missing request) _ _ _ w
serve_call-Replies env config (redrive_call id kind request signature) w =
    guarded (is_missing id || lacks_type kind || is_missing request) _ _ _ w
serve_call-Replies env config (approve_call k actor) w =
    guarded (is_missing k || is_missing actor) _ _ _ w
serve_call-Replies env config (reject_call k actor reason) w =
    guarded (is_missing k || is_missing actor) _ _ _ w
