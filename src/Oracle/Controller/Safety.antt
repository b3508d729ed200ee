-- ===== src/Oracle/Controller/Safety.antt =====
-- Invariants of the histories of calls to the routes of oracle/src/api/controller.ts.
use agroasys_web3layer.Prelude.{ℕ, String, ◌||◌, Option, List, [], ◌∷◌}
use agroasys_web3layer.Exec.Keeps.{Keeps, Keeps-bind, Keeps-catch, Keeps-if, Keeps-lift, Keeps-pure}
use agroasys_web3layer.Oracle.Types.{
  Trigger, TriggerType, TriggerResponse, release_stage_1, confirm_arrival, finalize_trade,
}
use agroasys_web3layer.Oracle.Table.Unique.{IsUnique}
use agroasys_web3layer.Oracle.Services.{Environment, World, Effect}
use agroasys_web3layer.Oracle.Services.Keeps.{
  Closed, date_now-Keeps, update_trigger-Keeps, get_trade-Keeps, execute_blockchain_action-Keeps,
}
use agroasys_web3layer.Oracle.Manager.{Config, attempt_once}
use agroasys_web3layer.Oracle.Manager.Justified.{
  AllJustified, IsJustified-Closed, attempt_once-IsJustified,
}
use agroasys_web3layer.Oracle.Requests.Keeps.{
  execute_trigger-Keeps, resume_after_approval-Keeps, reject_pending_trigger-Keeps,
}
use agroasys_web3layer.Oracle.Controller.{
  ApiCall, release_stage_1_call, confirm_arrival_call, finalize_trade_call, redrive_call,
  approve_call, reject_call, is_missing, lacks_type, reply_error, reply_with, bad_request,
  trigger_route, redrive_route, approve_route, reject_route, serve_call, serve,
}

module _ {P : World → Type 0} where
  pub reply_with-Keeps :
      (f : String) (m : Effect TriggerResponse) → Keeps P m → Keeps P (reply_with f m)
  unfolding reply_with reply_error
  reply_with-Keeps f m k =
      Keeps-catch _ _ (Keeps-bind _ _ k (λ r. Keeps-pure _)) (λ e. Keeps-pure _)

  pub bad_request-Keeps : (text : String) → Keeps P (bad_request text)
  unfolding bad_request
  bad_request-Keeps text = Keeps-pure _

module _ {P : World → Type 0} (c : Closed P) (env : Environment) (config : Config)
    (attempt : (t : Trigger) (a : String) (n : ℕ) → Keeps P (attempt_once env config t a n)) where
  trigger_route-Keeps :
      (kind : TriggerType) (id request signature : Option String)
      → Keeps P (trigger_route env config kind id request signature)
  unfolding trigger_route
  trigger_route-Keeps kind id request signature =
      Keeps-if (is_missing id || is_missing request) _ _ (bad_request-Keeps _)
        (reply_with-Keeps _ _ (execute_trigger-Keeps c env config attempt _))

  -- Each route keeps what an attempt and the services keep.
  serve_call-Keeps : (call : ApiCall) → Keeps P (serve_call env config call)
  unfolding serve_call redrive_route approve_route reject_route
  serve_call-Keeps (release_stage_1_call id request signature) =
      trigger_route-Keeps release_stage_1 id request signature
  serve_call-Keeps (confirm_arrival_call id request signature) =
      trigger_route-Keeps confirm_arrival id request signature
  serve_call-Keeps (finalize_trade_call id request signature) =
      trigger_route-Keeps finalize_trade id request signature
  serve_call-Keeps (redrive_call id kind request signature) =
      Keeps-if (is_missing id || lacks_type kind || is_missing request) _ _ (bad_request-Keeps _)
        (reply_with-Keeps _ _ (execute_trigger-Keeps c env config attempt _))
  serve_call-Keeps (approve_call k actor) =
      Keeps-if (is_missing k || is_missing actor) _ _ (bad_request-Keeps _)
        (reply_with-Keeps _ _ (resume_after_approval-Keeps c env config attempt _ _))
  serve_call-Keeps (reject_call k actor reason) =
      Keeps-if (is_missing k || is_missing actor) _ _ (bad_request-Keeps _)
        (reply_with-Keeps _ _ (reject_pending_trigger-Keeps c env config attempt _ _ _))

  serve-keeps : (calls : List ApiCall) (w : World) → P w → P (serve env config calls w)
  unfolding serve
  serve-keeps [] w p = p
  serve-keeps (call ∷ calls) w p = serve-keeps calls _ ((serve_call-Keeps call).at w p)

abbrev pub HasUnique : World → Type 0
HasUnique w = IsUnique w.table.rows

pub HasUnique-Closed : Closed HasUnique
HasUnique-Closed = record {
  quiet = record {
    ticked = λ w n p. p;
    slept = λ w l p. p;
    noticed = λ w l p. p;
    saw = λ w n id trade p. p;
  };
  stored = λ w table u p. u p;
}

attempt_once-HasUnique :
    (env : Environment) (config : Config) (t : Trigger) (a : String) (n : ℕ)
    → Keeps HasUnique (attempt_once env config t a n)
unfolding attempt_once
attempt_once-HasUnique env config t a n =
    let c = HasUnique-Closed in
    Keeps-bind _ _ (get_trade-Keeps c.quiet env _) (λ trade.
      Keeps-bind _ _ (date_now-Keeps c.quiet env) (λ now. Keeps-bind _ _ (Keeps-lift _) (λ _.
        Keeps-bind _ _ (update_trigger-Keeps c env _ _) (λ _.
          Keeps-bind _ _ (execute_blockchain_action-Keeps (λ w n k id p. p) env _ _) (λ result.
            Keeps-bind _ _ (date_now-Keeps c.quiet env)
              (λ at. Keeps-bind _ _ (update_trigger-Keeps c env _ _) (λ _. Keeps-pure _)))))))

-- From a table with distinct idempotency keys and at most one active trigger for each action, every
-- history of API calls leads to such a table, whatever the chain, the database and the clock do.
pub serve-IsUnique :
    (env : Environment) (config : Config) (calls : List ApiCall) (w : World)
    → IsUnique w.table.rows
    → IsUnique (serve env config calls w).table.rows
serve-IsUnique env config =
    serve-keeps HasUnique-Closed env config (attempt_once-HasUnique env config)

-- From a log in which each transaction follows directly on an observation of its trade in a state in
-- which the action is valid at the clock's next reading, every history of API calls leads to such a log.
pub serve-AllJustified :
    (env : Environment) (config : Config) (calls : List ApiCall) (w : World)
    → AllJustified env w.chain_log
    → AllJustified env (serve env config calls w).chain_log
serve-AllJustified env config =
    serve-keeps (IsJustified-Closed env) env config (attempt_once-IsJustified env config)
