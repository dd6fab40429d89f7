-- ===== src/Examples/Edges.antt =====
-- Runs at the edges of the model, which the conditions of the theorems are about: a text that the
-- server does not store, a handler that blocks its thread, and a clock that steps back.
use rust_events.Base.{ℕ, ◌≡◌, refl, true, [], ◌∷◌, ok, err}
use rust_events.Handler.{done, Async, returned, pending, HandlerOutcome, ms}
use rust_events.Registry.{handler_ids_for}
use rust_events.Schema.{Db, over, deliveries_check}
use rust_events.Dispatch.Context.{DispatchContext}
use rust_events.Dispatch.Errors.{from_sqlx}
use rust_events.Dispatch.Transaction.{statement, reserve_key, has_nul, character_not_in_repertoire}
use rust_events.Dispatch.{check_key, validate, encode_payload, reserve, after_reserve, dispatch}
use rust_events.Runtime.Claim.{set_running}
use rust_events.Runtime.Marks.{update_deliveries, mark_sent_fenced}
use rust_events.Runtime.Invoke.{timeout, completed, elapsed}
use rust_events.Runtime.{WorkerIo, settle}
use rust_events.Examples.{
  order_created, shop, pusher, json, dispatch_io, order_ctx, transaction, mail_delivery, tables,
  mail_job, attempt_under, worker_io,
}

abbrev nul_ctx : DispatchContext ℕ
nul_ctx = record order_ctx { tenant_id = 0 ∷ [] }

-- A tenant with U+0000 passes the limits, and the server refuses the reservation.
nul_is_refused :
    dispatch pusher json shop (dispatch_io 7) nul_ctx order_created 2 transaction
    ≡ (err (from_sqlx character_not_in_repertoire), record transaction { aborted = true })
unfolding dispatch validate check_key encode_payload handler_ids_for reserve reserve_key has_nul
    statement over after_reserve
nul_is_refused = refl

abbrev run_that : ℕ → Async HandlerOutcome
run_that n = record { last_yield = n; ending = returned done }

abbrev stuck : Async HandlerOutcome
stuck = record { last_yield = ms 1; ending = pending }

-- The timer looks on when the run yields: a run that never does is over before.
timer_fires :
    (timeout (ms 100) (run_that 0) ≡ completed done)
    × (timeout (ms 100) (run_that (ms 99)) ≡ completed done)
    × (timeout (ms 100) (run_that (ms 100)) ≡ elapsed)
    × (timeout (ms 100) stuck ≡ elapsed)
unfolding timeout
timer_fires = (refl, refl, refl, refl)

abbrev claimed_at_5 : Db ℕ
claimed_at_5 = record tables { deliveries = set_running 5 1 9 mail_delivery ∷ [] }

abbrev behind : WorkerIo
behind = record worker_io { mark_time = 4 }

-- A delivery claimed at 5 cannot be finished at 4: the CHECK refuses the mark, and the row stays.
clock_steps_back : (settle behind mail_job (attempt_under 9) (ok tt) claimed_at_5).1 ≡ claimed_at_5
unfolding settle mark_sent_fenced update_deliveries deliveries_check over
clock_steps_back = refl
