-- ===== src/Oracle/System.antt =====
-- The oracle's service as a whole: the routes of oracle/src/api/controller.ts and the polls of
-- oracle/src/worker/confirmation-worker.ts, which share the table and the chain, in any order. A call
-- or a poll runs to its end before the next one starts.
use agroasys_web3layer.Prelude.{List, [], ◌∷◌}
use agroasys_web3layer.Oracle.Table.Unique.{IsUnique}
use agroasys_web3layer.Oracle.Services.{Environment}
use agroasys_web3layer.Oracle.Manager.{Config}
use agroasys_web3layer.Oracle.Manager.Justified.{AllJustified, IsJustified-Closed}
use agroasys_web3layer.Oracle.Controller.{ApiCall, serve}
use agroasys_web3layer.Oracle.Controller.Safety.{
  HasUnique-Closed, serve-IsUnique, serve-AllJustified,
}
use agroasys_web3layer.Oracle.Worker.{WorkerConfig, Watch, poll_confirmations}
use agroasys_web3layer.Oracle.Worker.Keeps.{poll_confirmations-Keeps}

pub data Event : Type 0 where
  call : ApiCall → Event
  poll : Event

module _ (env : Environment) (config : Config) (worker : WorkerConfig) where
  pub run_event : Event → Watch → Watch
  run_event (call c) s = record s { world = serve env config (c ∷ []) s.world }
  run_event poll s = (poll_confirmations env worker s).1

  pub run : List Event → Watch → Watch
  unfolding run_event
  run [] s = s
  run (e ∷ es) s = run es (run_event e s)

  -- In every history of calls and polls from a table with distinct idempotency keys and at most one
  -- active trigger for each action, the table stays so, whatever the chain, the database and the clock
  -- do.
  pub run-IsUnique :
      (es : List Event) (s : Watch)
      → IsUnique s.world.table.rows
      → IsUnique (run es s).world.table.rows
  unfolding run run_event
  run-IsUnique [] s u = u
  run-IsUnique (call c ∷ es) s u = run-IsUnique es _ (serve-IsUnique env config (c ∷ []) s.world u)
  run-IsUnique (poll ∷ es) s u =
      run-IsUnique es _ ((poll_confirmations-Keeps HasUnique-Closed env worker).at s u)

  -- From a log in which each transaction follows directly on an observation of its trade in a state in
  -- which the action is valid at the clock's next reading, as the empty one, every history of calls and
  -- polls leads to such a log, whatever the chain, the database and the clock do.
  pub run-AllJustified :
      (es : List Event) (s : Watch)
      → AllJustified env s.world.chain_log
      → AllJustified env (run es s).world.chain_log
  unfolding run run_event
  run-AllJustified [] s j = j
  run-AllJustified (call c ∷ es) s j =
      run-AllJustified es _ (serve-AllJustified env config (c ∷ []) s.world j)
  run-AllJustified (poll ∷ es) s j =
      run-AllJustified es _ ((poll_confirmations-Keeps (IsJustified-Closed env) env worker).at s j)
