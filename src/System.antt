-- ===== src/System.antt =====
-- The whole library at one database: the transactions of producers (src/outbox.rs), the claims and
-- verdicts of workers (src/runtime.rs) and the statements of the purges (src/purge.rs), in any
-- order. A transaction shows at its commit, which the server refuses if a statement in it has
-- failed, or if a key that it reserved has no event (the deferred foreign key of the migration).
pub mod Sound
pub mod Inserts
pub mod Reserves
pub mod Dispatches
pub mod Workers
pub mod Purges
pub mod Reachable
pub mod Losses
pub mod Handlers
pub mod Success
pub mod Succeeds
pub mod Keyed
pub mod Delivered
pub mod Duplicates
pub mod Failures
pub mod Phases
pub mod Publishes
pub mod Outlook
pub mod Pending
pub mod Job
pub mod Redelivered
pub mod Races
pub mod Locks
pub mod Answers
pub mod Winners
pub mod Serial
pub mod Rivals
use rust_events.Base.{ℕ, ◌≤◌, ◌≡◌, false}
use rust_events.Handler.{DomainEvent}
use rust_events.Builder.{Outbox}
use rust_events.Schema.{Db, DispatchKey, Wire, over}
use rust_events.Dispatch.Context.{DispatchContext}
use rust_events.Dispatch.Transaction.{Pusher, Json, Tx}
use rust_events.Dispatch.{DispatchIo, dispatch}
use rust_events.Runtime.{OutboxRuntime}
use rust_events.Runtime.Traces.{Step}
use rust_events.Purge.Statements.{delete_terminal_deliveries, delete_dispatch_keys, delete_events}
use rust_events.Purge.Cascade.{AreReferenced}

-- The foreign key of `outbox.dispatch_keys`, which is checked at the commit.
abbrev pub KeysRefer : {M : Type 0} → Db M → Type 0
KeysRefer db = AreReferenced (λ (k : DispatchKey). k.event_id) db.events db.dispatch_keys

module _ {B M : Type 0} (p : Pusher) (json : Json M) (outbox : Outbox B M) where
  -- The dispatches of one transaction, whose `now()` is the same for all. The caller may go on after
  -- an error.
  pub data Transacts : ℕ → Tx M p.Jobs → Tx M p.Jobs → Type 1 where
    begun : (now : ℕ) (tx : Tx M p.Jobs) → Transacts now tx tx
    dispatches :
        (io : DispatchIo) (ctx : DispatchContext M) (e : DomainEvent) (event : e.Event)
        (tx tx' : Tx M p.Jobs)
        → Transacts io.now tx tx'
        → Transacts io.now tx (dispatch p json outbox io ctx e event tx').1

module _ {B M : Type 0} (p : Pusher) (json : Json M) (outbox : Outbox B M)
    (rt : OutboxRuntime B M) where
  -- What others see of the database change, from one moment to a later one.
  pub data SystemStep : ℕ → Db M → ℕ → Db M → Type 1 where
    commits :
        (t now u : ℕ) (tx tx' : Tx M p.Jobs)
        → Transacts p json outbox now tx tx'
        → t ≤ u
        → now ≤ u
        → tx'.aborted ≡ false
        → KeysRefer tx'.db
        → SystemStep t tx.db u tx'.db
    works : (t u : ℕ) (db db' : Db M) → Step rt t db u db' → SystemStep t db u db'
    purges_deliveries :
        (t cutoff : ℕ) (wire : Wire) (db : Db M)
        → SystemStep t db t (over wire (delete_terminal_deliveries cutoff) db).1
    purges_keys :
        (t cutoff : ℕ) (wire : Wire) (db : Db M)
        → SystemStep t db t (over wire (delete_dispatch_keys cutoff) db).1
    purges_events :
        (t cutoff : ℕ) (wire : Wire) (db : Db M)
        → SystemStep t db t (over wire (delete_events cutoff) db).1

  pub data SystemRuns : ℕ → Db M → ℕ → Db M → Type 1 where
    rests : (now : ℕ) (db : Db M) → SystemRuns now db now db
    steps :
        (t u v : ℕ) (db db' db'' : Db M)
        → SystemStep t db u db'
        → SystemRuns u db' v db''
        → SystemRuns t db v db''
