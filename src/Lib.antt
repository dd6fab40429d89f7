-- ===== src/Lib.antt =====
-- rust_events: a transactional outbox for domain events on PostgreSQL.
--
-- A producer dispatches an event within its own transaction: `Outbox::dispatch` (src/outbox.rs)
-- validates it, reserves its idempotency key, writes the event and one delivery for each handler,
-- and pushes one job for each delivery to `pg_work_queue`. The queue's worker gives each job to
-- `OutboxRuntime::handle_envelope` (src/runtime.rs), which claims the delivery under the job's lease
-- token, runs the handler under a timeout, and marks the delivery sent, awaiting_retry, skipped or
-- dead, fenced by that token. The handlers come from a registry that `OutboxBuilder`
-- (src/builder.rs) validates and builds.
--
-- The modules, and the sources they model:
--   Base      shared names: results and actions, texts, lists, SQL tables, maps, and their lemmas
--   Limits    src/limits.rs
--   Util      src/util.rs; Sanitize and Truncate have the laws of the two text functions
--   Handler   src/handler.rs, src/envelope.rs and the erased handler of src/registry.rs
--   Registry  src/registry.rs
--   Builder   src/builder.rs and BuildError; Config and Options are its two option records,
--             Registration, Built and ConfigBounds the proofs
--   Schema    migrations/20260513000001_v01_outbox_init.sql and DeliveryStatus of src/history.rs
--   Runtime   src/runtime.rs; Jobs, Marks, Claim and Invoke are its parts: the error mapping, the
--             four marks, the claim statement and the timed call. Rows, Statements, Verdict and
--             Cases are lemmas on the statements; Outcome, Validity, Evolution, Fencing, Timing,
--             Attempts, Retries, Fates, Reasons and Redaction are about one run, Machine, Traces and
--             Stale about many workers
--   Dispatch  Outbox::dispatch, src/dispatch_context.rs, src/outcome.rs and DispatchError;
--             Transaction has the statements, and the children from Steps on the proofs
--   Start     Outbox::start and its guard; Worker has what it asks of the queue's worker, Once and
--             Limits the proofs
--   History   src/history.rs; Sorted and Views have the proofs
--   Purge     src/purge.rs; Statements has its three DELETEs, Loop, Cascade, Rows, Total and Safety
--             the proofs
--   System    dispatches, workers and purges at one database: its steps; Sound is the invariant, and
--             the other children are the proofs: Inserts, Reserves, Dispatches, Workers and
--             Purges on its steps, Reachable and Losses on its runs, Handlers, Success, Succeeds,
--             Keyed, Failures, Duplicates and Delivered on the ways of one event, Phases,
--             Publishes and Outlook on the abstract view of the deliveries, Pending, Job and
--             Redelivered on the attempts of one job, Races, Locks, Answers, Winners, Serial and
--             Rivals on open transactions that reserve keys
--   Handle    OutboxHandle::shutdown of src/handle.rs; Drain has the proof
--   Examples  a small shop, at which each theorem is applied; Edges tests the edges of the model
--
-- How the code is modelled. Code that changes the database is an action: a function from the state
-- to a result and the next state, so that an early return keeps the writes before it. A table is a
-- list of rows, a SQL statement is atomic, and a write that breaks a CHECK, a key or a UNIQUE
-- constraint is refused whole with its SQLSTATE. What becomes of a call to the server is an
-- argument (`Wire`): it is answered, or it is lost before or after the server has run it. A
-- statement that fails aborts the caller's transaction, which then refuses every later statement.
-- Ids, tokens, times and durations are natural numbers (nanoseconds), and a text is the list of its
-- code points, measured in UTF-8 bytes. dispatch's statements refuse a text that holds U+0000,
-- which the server cannot store (src/util.rs); a job's handler id was stored by one of them. A
-- future is the moment when it yields last and how it ends: it returns, panics or waits for ever.
-- One that blocks its thread does not yield, so the timeout of src/runtime.rs, which looks at its
-- timer when the future has yielded, lets it end. A HashMap is an association list. The loops over
-- registrations, rows and text positions are structural. Only the loops of src/purge.rs run on
-- fuel: each turn but the last deletes rows, so one more than the rows that are to go is enough.
--
-- Parameters. `pg_work_queue::Pusher` is a record of its table, its error and `push_batch`; serde's
-- codec of an event type is two functions of `DomainEvent`; `serde_json::Map` is a type `M`, with
-- its printing, the cast to jsonb and the jsonb length in the record `Json`. The queue's delivery
-- of jobs is no part of the model: a theorem on the worker holds for every envelope and job
-- context, and what README.md says of the queue's redelivery (a job that asks for it, or whose
-- process has stopped, is run again while it has attempts left) is a hypothesis of the theorem that
-- needs it (System/Redelivered). Concurrent workers are interleavings of claims and verdicts
-- (Runtime/Traces); System interleaves them with committed transactions and with the statements of
-- the purges. Transactions run one after another, and one shows to others at its commit, where the
-- deferred foreign key of the keys is checked. The exception is System/Races: there, transactions
-- are open at the same time, and the upsert of a key waits for the lock of its row.
--
-- Not modelled: a handler that blocks its thread for ever, the millisecond that tokio's timer is
-- exact to, which error a statement with two faults has, tracing, the other row locks, the indexes,
-- the migrator, the module list of src/lib.rs, and the texts of the error messages inside
-- BuildError::ConfigInvalid.
pub mod Base
pub mod Limits
pub mod Util
pub mod Handler
pub mod Registry
pub mod Builder
pub mod Schema
pub mod Runtime
pub mod Dispatch
pub mod Start
pub mod History
pub mod Purge
pub mod Examples
pub mod Handle
pub mod System
