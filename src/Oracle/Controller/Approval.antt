-- ===== src/Oracle/Controller/Approval.antt =====
-- The routes of oracle/src/api/controller.ts under manual approval.
use agroasys_web3layer.Prelude.{ℕ, String, true, ◌||◌, ◌≡◌, refl, Option, List, [], ◌∷◌, All, ◌∙◌}
use agroasys_web3layer.Exec.Keeps.{Keeps, Keeps-if}
use agroasys_web3layer.Oracle.Types.{TriggerType, release_stage_1, confirm_arrival, finalize_trade}
use agroasys_web3layer.Oracle.Services.{Environment, World}
use agroasys_web3layer.Oracle.Manager.{Config}
use agroasys_web3layer.Oracle.Manager.Stores.{sends}
use agroasys_web3layer.Oracle.Requests.Unsent.{
  HasSent, execute_trigger-Unsent, reject_pending_trigger-Unsent,
}
use agroasys_web3layer.Oracle.Controller.{
  ApiCall, release_stage_1_call, confirm_arrival_call, finalize_trade_call, redrive_call,
  approve_call, reject_call, is_missing, trigger_route, reject_route, serve_call, serve,
}
use agroasys_web3layer.Oracle.Controller.Safety.{reply_with-Keeps, bad_request-Keeps}

-- Every call but an approval and a re-drive.
abbrev pub NeedsApproval : ApiCall → Type 0
NeedsApproval (redrive_call id kind request signature) = ⊥
NeedsApproval (approve_call k actor) = ⊥
NeedsApproval _ = Unit {0}

module _ (env : Environment) (config : Config)
    (manual : config.manual_approval_enabled ≡ true) where
  module _ (n : ℕ) where
    trigger_route-Unsent :
        (kind : TriggerType) (id request signature : Option String)
        → Keeps (HasSent n) (trigger_route env config kind id request signature)
    unfolding trigger_route
    trigger_route-Unsent kind id request signature =
        Keeps-if (is_missing id || is_missing request) _ _ (bad_request-Keeps _)
          (reply_with-Keeps _ _ (execute_trigger-Unsent n env config manual _ refl))

    serve_call-Unsent :
        (call : ApiCall) → NeedsApproval call → Keeps (HasSent n) (serve_call env config call)
    unfolding serve_call reject_route
    serve_call-Unsent (release_stage_1_call id request signature) needs =
        trigger_route-Unsent release_stage_1 id request signature
    serve_call-Unsent (confirm_arrival_call id request signature) needs =
        trigger_route-Unsent confirm_arrival id request signature
    serve_call-Unsent (finalize_trade_call id request signature) needs =
        trigger_route-Unsent finalize_trade id request signature
    serve_call-Unsent (redrive_call id kind request signature) needs = absurd needs
    serve_call-Unsent (approve_call k actor) needs = absurd needs
    serve_call-Unsent (reject_call k actor reason) needs =
        Keeps-if (is_missing k || is_missing actor) _ _ (bad_request-Keeps _)
          (reply_with-Keeps _ _ (reject_pending_trigger-Unsent n env config _ _ _))

  -- With manual approval on, no history of calls without an approval and without a re-drive sends a
  -- transaction, whatever the chain, the database and the clock do.
  pub serve-Unsent :
      (calls : List ApiCall) (w : World)
      → All NeedsApproval calls
      → sends (serve env config calls w).chain_log ≡ sends w.chain_log
  unfolding serve
  serve-Unsent [] w needs = refl
  serve-Unsent (call ∷ calls) w needs =
      serve-Unsent calls (serve_call env config call w).1 needs.1
      ∙ (serve_call-Unsent (sends w.chain_log) call needs.0).at w refl
