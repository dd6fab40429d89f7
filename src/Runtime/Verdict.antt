-- ===== src/Runtime/Verdict.antt =====
-- What a handler's result means for the row and for the job, and that `settle` does this.
use rust_events.Base.{
  ℕ, ◌≡◌, Bool, true, inl, inr, none, some, Str, str, ◌++◌, Result, ok, err, leb, update_where,
  count_where, if◌then◌else◌, Bool-cases, arith,
}
use rust_events.Handler.{HandlerEnvelope, HandlerError, retry_error, skip_error, abort_error}
use rust_events.Schema.{Db, Delivery, reply, over}
use rust_events.Schema.Valid.{IsValid, AreValid}
use rust_events.Runtime.Jobs.{JobContext, JobError, retry_job, retry_job_in, abort_job}
use rust_events.Runtime.Marks.{
  stored_reason, set_sent, set_awaiting_retry, set_dead, set_skipped, is_fenced, update_deliveries,
  mark_sent_fenced, mark_awaiting_retry_fenced, mark_dead_fenced, mark_skipped_fenced,
}
use rust_events.Runtime.Rows.{
  len-stored_reason-le, set_sent-IsValid, set_awaiting_retry-IsValid, set_dead-IsValid,
  set_skipped-IsValid,
}
use rust_events.Runtime.Statements.{is_fenced-is_running, update_deliveries_lem}
use rust_events.Runtime.{WorkerIo, settle, mark_unregistered}

-- The row that a result leaves.
abbrev pub finish : JobContext → ℕ → Result (Unit {0}) HandlerError → Delivery → Delivery
finish ctx now (ok _) = set_sent now
finish ctx now (err (retry_error reason _)) =
    if leb ctx.max_attempts ctx.attempt
    then set_dead now (stored_reason reason)
    else set_awaiting_retry now (stored_reason reason)
finish ctx now (err (skip_error reason)) = set_skipped now (stored_reason reason)
finish ctx now (err (abort_error reason)) = set_dead now (stored_reason reason)

-- What `pg_work_queue` is told.
abbrev pub answer : Result (Unit {0}) HandlerError → Result (Unit {0}) JobError
answer (ok _) = ok tt
answer (err (retry_error reason none)) = err (retry_job (stored_reason reason))
answer (err (retry_error reason (some delay))) = err (retry_job_in (stored_reason reason) delay)
answer (err (skip_error reason)) = err (abort_job (str "skipped: " ++ stored_reason reason))
answer (err (abort_error reason)) = err (abort_job (stored_reason reason))

pub finish-IsValid :
    (ctx : JobContext) (now : ℕ) (result : Result (Unit {0}) HandlerError) (event_id token : ℕ)
    (handler_id : Str) (d : Delivery)
    → IsValid now d
    → is_fenced event_id handler_id token d ≡ true
    → IsValid now (finish ctx now result d)
finish-IsValid ctx now (ok _) event_id token handler_id d v h =
    set_sent-IsValid now d v (is_fenced-is_running event_id token handler_id d h)
finish-IsValid ctx now (err (retry_error reason _)) event_id token handler_id d v h =
    let run = is_fenced-is_running event_id token handler_id d h in
    elim (Bool-cases (leb ctx.max_attempts ctx.attempt)) [
      | inl e ↦ rw e (set_dead-IsValid now d v run _ (len-stored_reason-le reason))
      | inr e ↦ rw e (set_awaiting_retry-IsValid now d v run _ (len-stored_reason-le reason))
    ]
finish-IsValid ctx now (err (skip_error reason)) event_id token handler_id d v h =
    set_skipped-IsValid now d v (is_fenced-is_running event_id token handler_id d h) _
      (len-stored_reason-le reason)
finish-IsValid ctx now (err (abort_error reason)) event_id token handler_id d v h =
    set_dead-IsValid now d v (is_fenced-is_running event_id token handler_id d h) _
      (len-stored_reason-le reason)

module _ {M : Type 0} (io : WorkerIo) (env : HandlerEnvelope) (ctx : JobContext) (db : Db M) where
  abbrev fence : Delivery → Bool
  fence = is_fenced env.event_id env.handler_id ctx.lease_token

  -- Whatever the wire does, `settle` is one UPDATE under the fence.
  pub settle_state :
      (result : Result (Unit {0}) HandlerError)
      → (settle io env ctx result db).1
        ≡ (over io.mark_wire (update_deliveries fence (finish ctx io.mark_time result)) db).1
  unfolding settle mark_sent_fenced mark_awaiting_retry_fenced mark_dead_fenced mark_skipped_fenced
  settle_state (ok _) = ground arith
  settle_state (err (retry_error reason delay)) = ground arith
  settle_state (err (skip_error reason)) = ground arith
  settle_state (err (abort_error reason)) = ground arith

  fenced_update_lem :
      (result : Result (Unit {0}) HandlerError)
      → AreValid io.mark_time db.deliveries
      → update_deliveries fence (finish ctx io.mark_time result) db ≡ (
        ok (count_where fence db.deliveries),
        record db {
          deliveries = update_where fence (finish ctx io.mark_time result) db.deliveries;
        },
      )
  fenced_update_lem result v = update_deliveries_lem io.mark_time fence _ db v λ d u h.
      finish-IsValid ctx io.mark_time result env.event_id ctx.lease_token env.handler_id d u h

  -- Answered by the server, it leaves the finished row and gives the answer to the job.
  pub settle_lem :
      (result : Result (Unit {0}) HandlerError)
      → io.mark_wire ≡ reply
      → AreValid io.mark_time db.deliveries
      → settle io env ctx result db ≡ (
        answer result,
        record db {
          deliveries = update_where fence (finish ctx io.mark_time result) db.deliveries;
        },
      )
  unfolding settle mark_sent_fenced mark_awaiting_retry_fenced mark_dead_fenced mark_skipped_fenced
      over
  settle_lem (ok u) e v = ground (arith, fenced_update_lem (ok u) v)
  settle_lem (err (retry_error reason none)) e v =
      ground (arith, fenced_update_lem (err (retry_error reason none)) v)
  settle_lem (err (retry_error reason (some delay))) e v =
      ground (arith, fenced_update_lem (err (retry_error reason (some delay))) v)
  settle_lem (err (skip_error reason)) e v =
      ground (arith, fenced_update_lem (err (skip_error reason)) v)
  settle_lem (err (abort_error reason)) e v =
      ground (arith, fenced_update_lem (err (abort_error reason)) v)

  -- A job without a handler is written like an abort.
  pub mark_unregistered_state :
      (mark_unregistered io env ctx db).1
      ≡ (settle io env ctx (err (abort_error (str "handler not registered"))) db).1
  unfolding mark_unregistered settle mark_dead_fenced
  mark_unregistered_state = ground arith

  pub mark_unregistered_lem :
      io.mark_wire ≡ reply
      → AreValid io.mark_time db.deliveries
      → mark_unregistered io env ctx db ≡ (
        err (abort_job (str "handler not registered")),
        (settle io env ctx (err (abort_error (str "handler not registered"))) db).1,
      )
  unfolding mark_unregistered settle mark_dead_fenced over
  mark_unregistered_lem e v =
      ground (arith, fenced_update_lem (err (abort_error (str "handler not registered"))) v)
