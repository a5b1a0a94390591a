-- ===== src/Lib.antt =====
-- A backend that runs private Stellar transfers on a server: it sets up accounts, deposits into a
-- privacy pool, and a simulator sends transfers between the accounts on a timer, each priced by a
-- protocol-fee quote and proved by a pool of workers, while the private state of each account and
-- the shared pool are kept in Postgres.
--
-- Prelude holds what the parts share: tests and lists over the native numbers, the integers of
-- `bigint` (Prelude/Int), text as UTF-16 units with `trim` and decimal printing and reading
-- (Prelude/Strings, Prelude/Decimal), JavaScript maps (Prelude/Maps), and methods that change state
-- and may throw, with their postconditions (Prelude/Effects: `Exec S A` is `S → Result A × S`, so what
-- was written before a throw stays written). Json is a JavaScript value with its objects, Web an HTTP
-- request and the server as a parameter, Persistence the rows of src/persistence.
--
--   Money           src/lib/money/money.ts: `xlmToStroops`, `stroopsToXlm`. Floating-point numbers
--                   are the parameter `Floats`, with the laws on signs that are used.
--   ProtocolFee     src/privacy/protocol-fee: Request (quote-request.ts and
--                   should-quote-protocol-fee.ts), Spend (required-spend.ts), Quote
--                   (quote-protocol-fee.ts and the header of src/privacy/kyt/kyt-inspect-auth.ts),
--                   Service (protocol-fee.service.ts, with its cache and the requests it has sent).
--   Notes           src/privacy/notes: Spendable (spendable-notes.ts), Spent (spent-records.ts),
--                   Delivery (delivery-remap.ts).
--   State           src/privacy/state: Snapshot and Balance (sdk-state-snapshot.ts), Adapter
--                   (postgres-state-adapter.ts). The table is an association list of snapshot ids and
--                   trees; the SDK's memory adapter is the parameter `Memory`.
--   Simulator       src/simulator: Rules, Loop and Interval (simulator-rules.ts), Occupancy
--                   (transfer-occupancy.ts), Service (simulator.service.ts; Transfer and Tick hold
--                   the transfers in flight and the tick, step by step between its awaits, and Live the
--                   ticks under way beside the rest), Bootstrap (simulator-bootstrap.ts and
--                   simulator-bootstrap.service.ts).
--   Accounts        src/accounts: accounts.service.ts, and Friendbot (friendbot.ts). The derived keys,
--                   `fetch` and `registerAccount` are parameters.
--   OperationLog    src/operation-log: paging.ts and operation-log.service.ts. The order of the
--                   database and JavaScript numbers are parameters.
--   Config          src/config/env.ts: how variables are read, and in Load the record that `loadDemoEnv`
--                   fills; load-env.ts: the variables that the file .env overwrites. The environment,
--                   the file and real numbers are parameters.
--   Async           src/lib/async: ResourcePool (resource-pool.ts), and Mutex (mutex.ts and
--                   keyed-mutex.ts), whose state is the queue of calls of each key and the phase of
--                   each call.
--   Jobs            src/privacy/jobs and src/privacy/disclosures.
--   Sdk             the privacy SDK and its relay, as the record of the calls that the sources make.
--   Relay           src/relay: relay-submit.service.ts, and Store (pending-operation.store.ts).
--   Operations      src/privacy/operations: Runner and Finalize (privacy-job-runner.ts), Service
--                   (privacy-operations.service.ts).
--   Proving         src/privacy/proving: prove-worker-pool.ts, and what prove-worker.ts does with a
--                   message.
--   Clients         src/privacy/clients: the registry of privacy-account-clients.ts with `refresh`,
--                   privacy-client.service.ts and wrap-transact-engine.ts.
--   Kyt             src/privacy/kyt/kyt-inspect-fetch-guard.ts.
--   Http            src/http/json-error.filter.ts.
--   Dashboard       src/dashboard: dashboard.controller.ts and dashboard-view.ts, and Page for the script
--                   public/app.js.
--   Tests           the theorems at concrete inputs.
--
-- The simulator asks the fee service for a quote, the operations for spendable balances and
-- transfers, and the log for entries: these are the record `Ports` of Simulator/Service, over any world
-- of the services behind it. A job of the operations goes under the locks of its accounts to a worker
-- of the proving pool, whose runner refreshes the clients from the rows of State, calls the SDK,
-- submits through the relay and delivers the records by Notes; its answer comes back by the pool to
-- the service. A name is the source's, in snake case; a method of a class is a function of its state,
-- the object's fields a record.
--
-- Loops are structural recursion on lists and trees, so nothing runs on fuel; the one exception is the
-- printing of numbers (Prelude/Decimal), whose fuel is the number itself and one more, and which
-- is shown to read back.
--
-- What is left out. An operation of the adapter, a job, a transfer and a start of the simulator run
-- whole: what happens between their awaits is not interleaved with other operations. A tick and a stop
-- of the simulator are held at their awaits, and transfers in flight end, the loop's ticks and sleeps
-- end, jobs take and give back resources, calls take and leave locks, workers answer and exit, and the
-- page's requests are answered, in any order of steps. Numbers in JSON are integers, and an exception
-- whose JSON is undefined is not one that the error filter is given. The start of a client and of a
-- worker process, which put the SDK's configuration together, the elements of the page and the module
-- wiring are not modelled; key derivation, the SDK, TypeORM and NestJS are third-party code.
pub mod Prelude
pub mod Json
pub mod Web
pub mod Money
pub mod ProtocolFee
pub mod Notes
pub mod State
pub mod Persistence
pub mod Simulator
pub mod Accounts
pub mod Async
pub mod OperationLog
pub mod Config
pub mod Jobs
pub mod Sdk
pub mod Relay
pub mod Operations
pub mod Proving
pub mod Clients
pub mod Http
pub mod Kyt
pub mod Dashboard
pub mod Tests
