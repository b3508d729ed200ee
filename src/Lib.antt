-- ===== src/Lib.antt =====
-- Models of the services of this repository, with the theorems that make them correct.
--
-- oracle/src executes the escrow's on-chain actions. A request reaches a route of the API controller,
-- which hands it to the trigger manager; the manager looks the action up in the table oracle_triggers,
-- validates the trade on the chain, queues the action for an approval or executes it with retries, and
-- answers with the trigger's status. The confirmation worker polls the submitted triggers and closes
-- them by the indexer's events, by the chain, or by a timeout.
--
-- Shared modules:
--   Prelude          texts, lists, Boolean tests and the libraries' names
--   Exec             effects: a state and an error, where a throw keeps what was written; Exec.Keeps has
--                    the rules for invariants, Exec.Triple those for pre- and postconditions
--
-- The oracle:
--   Oracle.Types       oracle/src/types/trigger.ts, and the trade of sdk/src/types/trade.ts
--   Oracle.Errors      oracle/src/utils/errors.ts: classify_error, determine_next_status
--   Oracle.Validator   oracle/src/core/state-validator.ts
--   Oracle.Backoff     oracle/src/utils/crypto.ts: keys, jitter and backoff
--   Oracle.Table       oracle/src/database/schema.sql and the statements of
--                      oracle/src/database/queries.ts, over a list of rows
--   Oracle.Services    the statements, SDKClient of oracle/src/blockchain/sdk-client.ts, the clock and the
--                      notifier, as effects on one World
--   Oracle.Manager     oracle/src/core/trigger-manager.ts: responses and the retry loop
--   Oracle.Requests    the same file's public methods
--   Oracle.Controller  oracle/src/api/controller.ts
--   Oracle.Worker      oracle/src/worker/confirmation-worker.ts, and findConfirmationEvent of
--                      oracle/src/blockchain/indexer-client.ts
--   Oracle.System      calls and polls in any order
--   Oracle.Tests       concrete runs
-- The names are the source's, in snake case. A `try` is `catch`, a `throw` is `throw`.
--
-- treasury/src keeps a ledger of released fees: the ingestion reads the indexer's events in batches and
-- upserts an entry with its initial payout state for each; the controller appends payout states, which
-- go through the lifecycle PENDING_REVIEW, READY_FOR_PAYOUT, PROCESSING, PAID, or end CANCELLED.
--   Treasury.Payout      treasury/src/core/payout.ts
--   Treasury.Ledger      treasury/src/database/schema.sql and treasury/src/database/queries.ts
--   Treasury.Ingestion   treasury/src/core/ingestion.ts
--   Treasury.Controller  appendState of treasury/src/api/controller.ts
--   Treasury.Tests       concrete runs
-- Surroundings holds the database's failures, the clock and the indexer's answers. The ingestion loop
-- recurs on a fuel of ingestMaxEvents rounds: a round that goes on has fetched at least one event.
--
-- notifications/src/index.ts is the webhook notifier: Notifications has its cooldown, its retries and its
-- payload, over Webhook, which answers the requests and holds the clock. The oracle's models only log what
-- the notifier is handed.
--
-- auth/src logs a wallet in and keeps the platform's sessions:
--   Auth               the types, the tables and the state that the requests share
--   Auth.Texts         toLowerCase of ASCII letters, the wallet's pattern, the bearer token
--   Auth.Queries       auth/src/database/queries.ts
--   Auth.Stores        the challenge, profile and session stores of auth/src/core
--   Auth.Service       auth/src/core/sessionService.ts
--   Auth.Controller    auth/src/api/controller.ts with its middleware and routes
--   Auth.Requests      what every request keeps, where the statements and the stores keep it
--   Auth.Epochs, Auth.Resolve, Auth.Revoked, Auth.Login   proofs
-- Its Environment holds the clock, the random numbers, the database's failures, how the driver hands a
-- BIGINT over, and verifyMessage of ethers.
--
-- gateway/src is the platform's API:
--   Gateway                        the error type
--   Gateway.Compliance             the records of gateway/src/core/complianceStore.ts
--   Gateway.Compliance.Store       its statements, and the transactions of complianceWriteStore.ts
--   Gateway.Compliance.Service     gateway/src/core/complianceService.ts
--   Gateway.Compliance.Validation  its validation of the bodies
--   Gateway.Idempotency            gateway/src/middleware/idempotency.ts over its store, as events: a request
--                                  arrives, a response ends, a response is lost. A body is the text that is
--                                  stored for it, and a replay sends that text
-- sha256, the clock, randomUUID, Date.parse, the database's failures and its order of ids are arguments.
--
-- The reconciliation (reconciliation/src): Reconciliation.antt holds its types, Address.antt
-- utils/address.ts, Classifier.antt the comparison of an indexed trade with the chain's
-- (core/classifier.ts), Store.antt the Postgres statements and Reconciler.antt a run
-- (core/reconciler.ts). Findings.antt and Agreement.antt are about where no drift is found, Loop.antt
-- about what the loop keeps, Balance.antt and Balance/Once.antt about how the drifts are counted,
-- Again.antt and the files of Again about a key that comes again, Rounds.antt about how many rounds the
-- loop takes: its fuel is maxTradesPerRun, since every round that goes on reads a trade. The state is
-- the tables with the alerts that were passed to the notifier; ethers' isAddress and getAddress are
-- parameters.
--
-- What is not in the repository's TypeScript is an argument: Environment holds the chain's trades, the
-- outcome of a transaction, the database's failures, the clock, random numbers and toLowerCase, and
-- answers by the moment of a call, which counts the calls. The world logs the chain calls, the notices
-- and the delays. Calls and polls run one at a time, each to its end.
--
-- Bounds: the retry loop recurs on a fuel of max_attempts rounds. The attempt counter starts at 1 and
-- grows by one in each round, so the loop's own test stops it there at the latest. Times are
-- milliseconds in the natural numbers; ages are compared without a subtraction, so that an age may be
-- negative as in the source.
--
-- Not modelled: logging and metrics, the timestamp of a reply, column widths, an update without
-- fields, the worker's timer and the reconciler's daemon loop, the HMAC between the services, the
-- reconciliation's report, the governance actions and the read routes of the gateway, the treasury's
-- listings, ricardian, shared-auth, the indexer, the SDK's wrappers and the configuration, which are
-- I/O, wiring or still to be done; the Solidity contracts and generated bindings are another language.
mod Prelude
pub mod Auth
pub mod Exec
pub mod Gateway
pub mod Oracle
pub mod Treasury
pub mod Notifications
pub mod Reconciliation
