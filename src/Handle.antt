-- ===== src/Handle.antt =====
-- src/handle.rs: `OutboxHandle::shutdown`, with `OutboxStats` of src/outcome.rs and ShutdownError of
-- src/error.rs. What the call meets is an argument: what the drain of `pg_work_queue` returns and
-- how long it takes, the wire and the duration of the count, and the database that the count finds.
-- Its warnings are not modelled.
pub mod Drain
use rust_events.Base.{
  ℕ, ◌-◌, ◌+◌, max, Result, ok, err, Action, map_err, count_where, leb, if◌then◌else◌,
}
use rust_events.Util.{SqlxError}
use rust_events.Handler.{ms}
use rust_events.Schema.{Db, Wire, over}
use rust_events.Schema.Status.{is_active}

pub record OutboxStats : Type 0 where
  pub pending_deliveries : ℕ

pub data ShutdownError (E : Type 0) : Type 0 where
  pgwq : E → ShutdownError E

-- `Stats` and `E` are `pg_work_queue::Stats` and `pg_work_queue::ShutdownError`.
pub record ShutdownIo (Stats E : Type 0) : Type 0 where
  pub drained : Result Stats E
  -- `start.elapsed()` when the drain is over.
  pub elapsed : ℕ
  pub count_wire : Wire
  pub count_duration : ℕ

-- SELECT COUNT(*) FROM outbox.handler_deliveries WHERE …
abbrev pub count_pending : {M : Type 0} → Action (Db M) ℕ SqlxError
count_pending db = (ok (count_where (λ d. is_active d.status) db.deliveries), db)

-- The time that is left for the count.
unfoldable pub count_budget : ℕ → ℕ → ℕ
count_budget timeout elapsed = max (timeout - elapsed) (ms 500)

abbrev pub or_zero : Result ℕ SqlxError → ℕ
or_zero (ok n) = n
or_zero (err _) = 0

module _ {M Stats E : Type 0} where
  -- `timeout(remaining, count_q)`: a query that ends at the deadline is in time.
  unfoldable pub pending_count : ShutdownIo Stats E → ℕ → Db M → ℕ
  pending_count io remaining db =
      if leb io.count_duration remaining then or_zero (over io.count_wire count_pending db).0 else 0

  unfoldable pub after_drain :
      ShutdownIo Stats E
      → ℕ
      → Db M
      → Result Stats E
      → Result (Stats × OutboxStats) (ShutdownError E)
  after_drain io timeout db (err e) = err (pgwq e)
  after_drain io timeout db (ok stats) =
      ok (
        stats,
        record { pending_deliveries = pending_count io (count_budget timeout io.elapsed) db },
      )

  -- `OutboxHandle::shutdown`
  unfoldable pub shutdown :
      ShutdownIo Stats E → ℕ → Db M → Result (Stats × OutboxStats) (ShutdownError E)
  shutdown io timeout db = after_drain io timeout db io.drained
