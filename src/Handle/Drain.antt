-- ===== src/Handle/Drain.antt =====
-- What `OutboxHandle::shutdown` returns, and how long it takes.
use rust_events.Base.{ℕ, ◌+◌, ◌≤◌, ◌≡◌, refl, max, ok, count_where, arith}
use rust_events.Handler.{ms}
use rust_events.Schema.{Db, reply, over}
use rust_events.Schema.Status.{is_active}
use rust_events.Handle.{ShutdownIo, count_budget, pending_count, after_drain, shutdown}

module _ {M Stats E : Type 0} (io : ShutdownIo Stats E) (timeout : ℕ) (db : Db M) where
  -- The deliveries that are not settled.
  abbrev pub unsettled : ℕ
  unsettled = count_where (λ d. is_active d.status) db.deliveries

  pending_count-le : (remaining : ℕ) → pending_count io remaining db ≤ unsettled
  unfolding pending_count over
  pending_count-le remaining = ground arith

  count_is_exact :
      (remaining : ℕ)
      → io.count_wire ≡ reply
      → io.count_duration ≤ remaining
      → pending_count io remaining db ≡ unsettled
  unfolding pending_count over
  count_is_exact remaining answered in_time = rw answered (ground arith)

  -- Once the drain of the queue has succeeded, `shutdown` returns its statistics whatever becomes of
  -- the count: the number of pending deliveries is never too high, and it is exact if the server
  -- answers within the time that is left, for which there are at least 500 ms and which ends by the
  -- timeout or 500 ms after the drain.
  pub shutdown_keeps_stats :
      (stats : Stats)
      → io.drained ≡ ok stats
      → (n : ℕ) × (shutdown io timeout db ≡ ok (stats, record { pending_deliveries = n }))
        × (n ≤ unsettled)
        × (io.count_wire ≡ reply
            → io.count_duration ≤ count_budget timeout io.elapsed
            → n ≡ unsettled)
        × (ms 500 ≤ count_budget timeout io.elapsed)
        × (io.elapsed + count_budget timeout io.elapsed ≤ max timeout (io.elapsed + ms 500))
  unfolding shutdown after_drain
  shutdown_keeps_stats stats drained = (
    pending_count io (count_budget timeout io.elapsed) db,
    rw drained refl,
    pending_count-le (count_budget timeout io.elapsed),
    count_is_exact (count_budget timeout io.elapsed),
    unfold count_budget in (omega arith),
    unfold count_budget in (omega arith),
  )
