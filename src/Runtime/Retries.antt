-- ===== src/Runtime/Retries.antt =====
-- An attempt of `handle_envelope` (src/runtime.rs) whose calls to the database may be lost.
use rust_events.Base.{
  ◌≤◌, ◌≡◌, ◌⊎◌, refl, true, false, some, Str, Result, ok, err, first, any, select_where, ◌&&◌,
  ◌==◌, inl, inr, Bool-cases, Option-cases, Action, catch, str, Bool, leb, arith,
}
use rust_events.Handler.{HandlerEnvelope, HandlerError, retry_error, skip_error, abort_error}
use rust_events.Registry.{find_handler}
use rust_events.Util.{SqlxError, is_sqlx_deterministic}
use rust_events.Schema.{
  Db, Delivery, EventRow, Wire, reply, lost_before, lost_after, over, is_delivery,
}
use rust_events.Schema.Status.{is_terminal}
use rust_events.Schema.Valid.{AreValid, HasUniqueKeys}
use rust_events.Runtime.Jobs.{JobContext, map_sql, map_mark_err}
use rust_events.Runtime.Marks.{
  fenced_update, update_deliveries, mark_sent_fenced, mark_awaiting_retry_fenced, mark_dead_fenced,
  mark_skipped_fenced,
}
use rust_events.Runtime.Claim.{Row, claimed_row, found_row, claim_delivery, clamp_i32}
use rust_events.Runtime.Outcome.{Answers, claim_lem, claim_state-proceed}
use rust_events.Runtime.Attempts.{asks_again, queue_and_table_agree}
use rust_events.Runtime.{
  WorkerIo, OutboxRuntime, settle, mark_unregistered, invoke, deliver, after_claim, claim,
  handle_envelope,
}

-- A lost call that may go through another time: no connection, a timeout, a deadlock.
abbrev pub IsLost : Wire → Type 0
IsLost reply = ⊥
IsLost (lost_before e) = is_sqlx_deterministic e ≡ false
IsLost (lost_after e) = is_sqlx_deterministic e ≡ false

-- The server answers, or the call may go through another time.
abbrev pub IsTransient : Wire → Type 0
IsTransient w = (w ≡ reply) ⊎ IsLost w

over_lost :
    {M A : Type 0} (w : Wire) (run : Action (Db M) A SqlxError) (ctx : Str) (db : Db M)
    → IsLost w
    → asks_again (catch (λ e. map_sql e ctx) (over w run) db).0 ≡ true
unfolding over map_sql
over_lost reply run ctx db h = absurd h
over_lost (lost_before e) run ctx db h = rw h refl
over_lost (lost_after e) run ctx db h = rw h refl

fenced_update_lost :
    {M : Type 0} (w : Wire) (kind : Str) (p : Delivery → Bool) (f : Delivery → Delivery) (db : Db M)
    → IsLost w
    → asks_again (fenced_update w kind p f db).0 ≡ true
unfolding map_mark_err
fenced_update_lost w kind p f db h = ground (arith, over_lost w (update_deliveries p f) kind db h)

module _ {M : Type 0} (io : WorkerIo) (env : HandlerEnvelope) (ctx : JobContext) (db : Db M)
    (lost : IsLost io.mark_wire) where
  mark_dead_lost :
      (reason : Str)
      → asks_again
          (mark_dead_fenced io.mark_wire io.mark_time env.event_id env.handler_id reason
            ctx.lease_token db).0
        ≡ true
  unfolding mark_dead_fenced
  mark_dead_lost reason = fenced_update_lost io.mark_wire _ _ _ db lost

  mark_awaiting_retry_lost :
      (reason : Str)
      → asks_again
          (mark_awaiting_retry_fenced io.mark_wire io.mark_time env.event_id env.handler_id reason
            ctx.lease_token db).0
        ≡ true
  unfolding mark_awaiting_retry_fenced
  mark_awaiting_retry_lost reason = fenced_update_lost io.mark_wire _ _ _ db lost

  mark_skipped_lost :
      (reason : Str)
      → asks_again
          (mark_skipped_fenced io.mark_wire io.mark_time env.event_id env.handler_id reason
            ctx.lease_token db).0
        ≡ true
  unfolding mark_skipped_fenced
  mark_skipped_lost reason = fenced_update_lost io.mark_wire _ _ _ db lost

  settle_lost :
      (result : Result (Unit {0}) HandlerError) → asks_again (settle io env ctx result db).0 ≡ true
  unfolding settle mark_sent_fenced
  settle_lost (ok _) = fenced_update_lost io.mark_wire _ _ _ db lost
  settle_lost (err (retry_error reason delay)) =
      elim (Bool-cases (leb ctx.max_attempts ctx.attempt)) [
        | inl last ↦ ground (arith, last, mark_dead_lost reason)
        | inr more ↦ ground (arith, more, mark_awaiting_retry_lost reason)
      ]
  settle_lost (err (skip_error reason)) = ground (arith, mark_skipped_lost reason)
  settle_lost (err (abort_error reason)) = ground (arith, mark_dead_lost reason)

  mark_unregistered_lost : asks_again (mark_unregistered io env ctx db).0 ≡ true
  unfolding mark_unregistered
  mark_unregistered_lost = ground (arith, mark_dead_lost (str "handler not registered"))

module _ {B M : Type 0} (io : WorkerIo) (env : HandlerEnvelope) (ctx : JobContext)
    (rt : OutboxRuntime B M) where
  deliver_lost :
      (row : Row M) (db : Db M)
      → IsLost io.mark_wire
      → asks_again (deliver io env ctx rt row db).0 ≡ true
  unfolding deliver
  deliver_lost row db lost = elim (Option-cases (find_handler rt.registry env.handler_id)) [
    | inl missing ↦ rw (missing, deliver) (mark_unregistered_lost io env ctx db lost)
    | inr (h, registered) ↦
        rw (registered, deliver) (settle_lost io env ctx db lost (invoke io env ctx rt h row))
  ]

  claim_lost :
      (db : Db M) → IsLost io.claim_wire → asks_again (handle_envelope io env ctx rt db).0 ≡ true
  unfolding handle_envelope claim
  claim_lost db lost = ground (
    arith,
    over_lost io.claim_wire
        (claim_delivery io.claim_time env.event_id env.handler_id (clamp_i32 ctx.attempt)
          ctx.lease_token)
        (str "fetch delivery") db lost,
  )

  module _ (db : Db M) (v : AreValid io.claim_time db.deliveries) (ev : EventRow M) (d : Delivery)
      (unique : HasUniqueKeys db.deliveries)
      (has_event : first (select_where (λ e. e.id == env.event_id) db.events) ≡ some ev)
      (has_delivery : first (select_where (is_delivery env.event_id env.handler_id) db.deliveries)
        ≡ some d) where
    -- The same claim, with a mark that is answered.
    abbrev answered : WorkerIo
    answered = record io { claim_wire = reply; mark_wire = reply; mark_time = io.claim_time }

    answered-Answers : Answers answered
    answered-Answers = record {
      claim_answered = refl;
      mark_answered = refl;
      in_order = omega arith;
    }

    claimed_run :
        (s : Db M)
        → io.claim_wire ≡ reply
        → claim answered env ctx db ≡ (ok (found_row env.event_id env.handler_id db), s)
        → is_terminal d.status ≡ false
        → handle_envelope io env ctx rt db
          ≡ deliver io env ctx rt (claimed_row env.event_id env.handler_id db ev) s
    unfolding handle_envelope claim after_claim
    claimed_run s replied claimed active = ground (
      arith,
      replied,
      claimed,
      has_event,
      claim_state-proceed answered env ctx rt db answered-Answers v ev d unique has_event
          has_delivery active,
    )

    -- A delivery that is still to be made is settled by an attempt, or the queue is asked to run the
    -- job again, whatever the handler does, and although calls to the database are lost, if only by
    -- failures that may pass. (The rows are valid and have unique keys, the event is there, and the
    -- clock does not run backwards.)
    pub attempt_settles_or_asks :
        is_terminal d.status ≡ false
        → IsTransient io.claim_wire
        → IsTransient io.mark_wire
        → io.claim_time ≤ io.mark_time
        → let (r, db') = handle_envelope io env ctx rt db in
          (asks_again r ≡ true)
          ⊎ (any
                (λ x. is_delivery env.event_id env.handler_id x && is_terminal x.status)
                db'.deliveries
              ≡ true)
    attempt_settles_or_asks active (inr lost) mark le = inl (claim_lost db lost)
    attempt_settles_or_asks active (inl replied) (inr lost) le =
        let claimed = claim_lem answered env ctx rt db answered-Answers v in
        let s = (claim answered env ctx db).1 in
        inl (
          ground (
            arith,
            claimed_run s replied (ground (arith, claimed)) active,
            deliver_lost (claimed_row env.event_id env.handler_id db ev) s lost,
          ))
    attempt_settles_or_asks active (inl replied) (inl marked) le =
        let answers : Answers io = record {
          claim_answered = replied;
          mark_answered = marked;
          in_order = le;
        } in
        ground (
          arith,
          queue_and_table_agree io env ctx rt db answers v ev d unique has_event has_delivery,
        )
