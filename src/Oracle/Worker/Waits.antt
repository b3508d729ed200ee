-- ===== src/Oracle/Worker/Waits.antt =====
-- The checks of oracle/src/worker/confirmation-worker.ts before the on-chain fallback sets in.
use agroasys_web3layer.Prelude.{ℕ, suc, ◌+◌, ◌<◌, true, false, ◌≡◌, refl, none, str_eq, arith}
use agroasys_web3layer.Exec.{ok, pure, catch, ◌>>=◌}
use agroasys_web3layer.Oracle.Types.{Trigger}
use agroasys_web3layer.Oracle.Services.{Environment, date_now, tick}
use agroasys_web3layer.Oracle.Worker.{
  WorkerConfig, Watch, is_older, is_younger, submitted_time, tx_hash_of, hard_timeout_ms,
  on_chain_fallback_threshold_ms, should_run_on_chain_check, find_event, find_confirmation_event,
  on_event, await_event, try_on_chain_fallback, after_fallback, check_confirmation,
}

not_older :
    (now since : ℕ)
    → is_younger now since on_chain_fallback_threshold_ms ≡ true
    → is_older now since hard_timeout_ms ≡ false
not_older now since young = ground arith

-- Within 20 minutes of the submission, a check of a trigger with a transaction hash of which the
-- indexer knows no event changes neither the table nor the noted on-chain checks and does not ask the
-- chain: only the clock's moment moves on.
pub check_confirmation-waits :
    (env : Environment) (config : WorkerConfig) (t : Trigger) (s : Watch)
    → str_eq (tx_hash_of t.tx_hash) "" ≡ false
    → env.now s.world.moment < submitted_time t + on_chain_fallback_threshold_ms
    → find_event t.trade_id (config.ask_indexer (suc s.world.moment) (tx_hash_of t.tx_hash)) ≡ none
    → check_confirmation env config t s
      ≡ (ok tt, record s { world = record s.world { moment = suc (suc s.world.moment) } })
unfolding check_confirmation try_on_chain_fallback after_fallback await_event
    find_confirmation_event on_event should_run_on_chain_check date_now tick catch pure ◌>>=◌
check_confirmation-waits env config t s submitted young unseen =
    let soon : is_younger (env.now s.world.moment) (submitted_time t) on_chain_fallback_threshold_ms
        ≡ true =
      ground arith in
    rw submitted (rw soon (rw (not_older _ _ soon) (rw unseen refl)))
