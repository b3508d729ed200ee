-- ===== src/Oracle/Requests/Answers.antt =====
-- The answer of oracle/src/core/trigger-manager.ts to the approval of a trigger that needs none.
use agroasys_web3layer.Prelude.{suc, String, false, ◌≡◌, refl, none, some}
use agroasys_web3layer.Exec.{ok, pure, ◌>>=◌}
use agroasys_web3layer.Oracle.Types.{Trigger, status_eq, pending_approval}
use agroasys_web3layer.Oracle.Table.{row_by_key, approve_row, update_row}
use agroasys_web3layer.Oracle.Services.{
  Environment, World, query, get_trigger_by_idempotency_key, approve_trigger,
}
use agroasys_web3layer.Oracle.Manager.{Config, build_response_from_trigger}
use agroasys_web3layer.Oracle.Requests.{already_processed, resume_updated, resume_after_approval}

module _ (env : Environment) (config : Config) where
  -- Approving a stored trigger that is not PENDING_APPROVAL, the database answering, executes
  -- nothing: the row is reported and nothing but the clock's moment changes.
  pub resume_after_approval-processed :
      (k actor : String) (w : World) (t : Trigger)
      → env.query_fault w.moment ≡ none
      → env.query_fault (suc w.moment) ≡ none
      → row_by_key k w.table.rows ≡ some t
      → status_eq t.status pending_approval ≡ false
      → resume_after_approval env config k actor w ≡ (
        ok (build_response_from_trigger t "Trigger already processed"),
        record w { moment = suc (suc w.moment) },
      )
  unfolding resume_after_approval resume_updated already_processed approve_trigger
      get_trigger_by_idempotency_key query approve_row update_row ◌>>=◌ pure
  resume_after_approval-processed k actor w t up up' found state =
      rw (up, found, update_row) (rw state (rw (up', found) refl))
