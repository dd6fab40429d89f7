-- ===== src/Runtime/Redaction.antt =====
-- What a database error tells the queue: `map_sql` and `map_mark_err` of src/runtime.rs.
use rust_events.Base.{
  ◌≡◌, refl, ap, ◌∙◌, Bool, true, false, none, some, Str, str, Bool-cases, inl, inr, leb, >>=-ap,
  Result, or_raise, Option-cases, Result-cases, ◌>>=◌, Action, catch, pure, ok, err, [], arith,
}
use rust_events.Handler.{HandlerEnvelope, HandlerError, retry_error, skip_error, abort_error}
use rust_events.Util.{
  SqlxError, database, io, tls, configuration, protocol, encode, decode, type_not_found,
  column_decode, pool_timed_out, pool_closed, row_not_found, other, is_sqlx_deterministic,
  redact_db_error, is_pg_constraint_violation,
}
use rust_events.Schema.{Db, Delivery, Wire, reply, lost_before, lost_after, over}
use rust_events.Dispatch.Errors.{from_sqlx, is_retriable}
use rust_events.Runtime.Jobs.{JobContext, JobError, abort_job, map_sql, map_mark_err}
use rust_events.Runtime.Marks.{
  fenced_update, update_deliveries, mark_sent_fenced, mark_awaiting_retry_fenced, mark_dead_fenced,
  mark_skipped_fenced,
}
use rust_events.Registry.{find_handler}
use rust_events.Runtime.Claim.{Row}
use rust_events.Runtime.{
  WorkerIo, invoke, handler_context, OutboxRuntime, claim, settle, mark_unregistered, deliver,
  after_claim, handle_envelope,
}

-- The error without the driver's and the server's text.
abbrev pub without_text : SqlxError → SqlxError
without_text (database code _) = database code []
without_text (io _) = io []
without_text (tls _) = tls []
without_text (configuration _) = configuration []
without_text (protocol _) = protocol []
without_text (encode _) = encode []
without_text (decode _) = decode []
without_text (type_not_found _) = type_not_found []
without_text (column_decode _) = column_decode []
without_text pool_timed_out = pool_timed_out
without_text pool_closed = pool_closed
without_text row_not_found = row_not_found
without_text (other _) = other []

map_sql-without_text : (e : SqlxError) (ctx : Str) → map_sql (without_text e) ctx ≡ map_sql e ctx
unfolding map_sql is_sqlx_deterministic redact_db_error
map_sql-without_text (database none _) ctx = refl
map_sql-without_text (database (some _) _) ctx = refl
map_sql-without_text _ ctx = refl

abbrev pub quiet : Wire → Wire
quiet reply = reply
quiet (lost_before e) = lost_before (without_text e)
quiet (lost_after e) = lost_after (without_text e)

abbrev pub quiet_io : WorkerIo → WorkerIo
quiet_io w = record w { claim_wire = quiet w.claim_wire; mark_wire = quiet w.mark_wire }

abbrev pub is_retry : JobError → Bool
is_retry (abort_job _) = false
is_retry _ = true

constraint-deterministic :
    (e : SqlxError) → is_pg_constraint_violation e ≡ true → is_sqlx_deterministic e ≡ true
unfolding is_pg_constraint_violation is_sqlx_deterministic
constraint-deterministic (database none _) h = absurd (ground arith)
constraint-deterministic (database (some c) _) h = ground (arith, h)
constraint-deterministic (io _) h = absurd (ground arith)
constraint-deterministic _ h = ground arith

-- The worker retries a database error exactly when `DispatchError::is_retriable` says of the same
-- error in a dispatch that it may be retried, and neither does for a constraint violation.
pub classifications_agree :
    {P : Type 0} (push_is_retriable : P → Bool) (e : SqlxError) (ctx : Str)
    → (is_retry (map_sql e ctx) ≡ is_retriable push_is_retriable (from_sqlx e))
      × (is_pg_constraint_violation e ≡ true → is_retry (map_sql e ctx) ≡ false)
unfolding map_sql from_sqlx is_retriable
classifications_agree push_is_retriable e ctx =
    (ground arith, λ h. ground (arith, constraint-deterministic e h))

over-quiet :
    {M A : Type 0} (w : Wire) (run : Action (Db M) A SqlxError) (ctx : Str) (db : Db M)
    → catch (λ e. map_sql e ctx) (over (quiet w) run) db
      ≡ catch (λ e. map_sql e ctx) (over w run) db
unfolding over
over-quiet reply run ctx db = refl
over-quiet (lost_before e) run ctx db = ap (λ x. (err x, db)) (map_sql-without_text e ctx)
over-quiet (lost_after e) run ctx db = ap (λ x. (err x, (run db).1)) (map_sql-without_text e ctx)

fenced_update-quiet :
    {M : Type 0} (w : Wire) (kind : Str) (p : Delivery → Bool) (f : Delivery → Delivery) (db : Db M)
    → fenced_update (quiet w) kind p f db ≡ fenced_update w kind p f db
unfolding map_mark_err
fenced_update-quiet w kind p f db =
    >>=-ap (catch (λ e. map_sql e kind) (over (quiet w) (update_deliveries p f)))
      (catch (λ e. map_sql e kind) (over w (update_deliveries p f))) (λ _. pure tt) db
      (over-quiet w (update_deliveries p f) kind db)

module _ {M : Type 0} (w : WorkerIo) (env : HandlerEnvelope) (ctx : JobContext) (db : Db M) where
  claim_quiet : claim (quiet_io w) env ctx db ≡ claim w env ctx db
  unfolding claim
  claim_quiet = over-quiet w.claim_wire _ (str "fetch delivery") db

  mark_dead_quiet :
      (reason : Str)
      → mark_dead_fenced
          (quiet w.mark_wire)
          w.mark_time
          env.event_id
          env.handler_id
          reason
          ctx.lease_token
          db
        ≡ mark_dead_fenced w.mark_wire w.mark_time env.event_id env.handler_id reason
            ctx.lease_token db
  unfolding mark_dead_fenced
  mark_dead_quiet reason = fenced_update-quiet w.mark_wire _ _ _ db

  mark_awaiting_retry_quiet :
      (reason : Str)
      → mark_awaiting_retry_fenced
          (quiet w.mark_wire)
          w.mark_time
          env.event_id
          env.handler_id
          reason
          ctx.lease_token
          db
        ≡ mark_awaiting_retry_fenced w.mark_wire w.mark_time env.event_id env.handler_id reason
            ctx.lease_token db
  unfolding mark_awaiting_retry_fenced
  mark_awaiting_retry_quiet reason = fenced_update-quiet w.mark_wire _ _ _ db

  mark_skipped_quiet :
      (reason : Str)
      → mark_skipped_fenced
          (quiet w.mark_wire)
          w.mark_time
          env.event_id
          env.handler_id
          reason
          ctx.lease_token
          db
        ≡ mark_skipped_fenced w.mark_wire w.mark_time env.event_id env.handler_id reason
            ctx.lease_token db
  unfolding mark_skipped_fenced
  mark_skipped_quiet reason = fenced_update-quiet w.mark_wire _ _ _ db

  settle_quiet :
      (result : Result (Unit {0}) HandlerError)
      → settle (quiet_io w) env ctx result db ≡ settle w env ctx result db
  unfolding settle mark_sent_fenced
  settle_quiet (ok _) = fenced_update-quiet w.mark_wire _ _ _ db
  settle_quiet (err (retry_error reason delay)) =
      elim (Bool-cases (leb ctx.max_attempts ctx.attempt)) [
        | inl last ↦ rw last (ground (arith, mark_dead_quiet reason))
        | inr more ↦ rw more (ground (arith, mark_awaiting_retry_quiet reason))
      ]
  settle_quiet (err (skip_error reason)) = ground (arith, mark_skipped_quiet reason)
  settle_quiet (err (abort_error reason)) = ground (arith, mark_dead_quiet reason)

module _ {B M : Type 0} (w : WorkerIo) (env : HandlerEnvelope) (ctx : JobContext)
    (rt : OutboxRuntime B M) where
  mark_unregistered_quiet :
      (db : Db M) → mark_unregistered (quiet_io w) env ctx db ≡ mark_unregistered w env ctx db
  unfolding mark_unregistered
  mark_unregistered_quiet db =
      ground (arith, mark_dead_quiet w env ctx db (str "handler not registered"))

  deliver_quiet :
      (row : Row M) (db : Db M)
      → deliver (quiet_io w) env ctx rt row db ≡ deliver w env ctx rt row db
  unfolding deliver invoke handler_context
  deliver_quiet row db = elim (Option-cases (find_handler rt.registry env.handler_id)) [
    | inl e ↦ rw (e, deliver) (mark_unregistered_quiet db)
    | inr (h, e) ↦ rw (e, deliver) (settle_quiet w env ctx db (invoke w env ctx rt h row))
  ]

  after_claim_quiet :
      (row : Row M) (db : Db M)
      → after_claim (quiet_io w) env ctx rt row db ≡ after_claim w env ctx rt row db
  unfolding after_claim
  after_claim_quiet row db = ground (arith, deliver_quiet row db)

  -- The worker's answer to the queue, and what it leaves in the database, do not depend on the text
  -- of an error that the driver or the server gives: only its kind and its SQLSTATE count.
  pub handle_envelope-without_text :
      (db : Db M) → handle_envelope (quiet_io w) env ctx rt db ≡ handle_envelope w env ctx rt db
  unfolding handle_envelope
  handle_envelope-without_text db =
      >>=-ap (claim (quiet_io w) env ctx) (claim w env ctx)
        (λ found.
          or_raise found (abort_job (str "event row missing"))
          >>= after_claim (quiet_io w) env ctx rt)
        db (claim_quiet w env ctx db)
      ∙ elim (Result-cases (claim w env ctx db).0) [
        | inr (x, c) ↦ ground (arith, c)
        | inl (none, c) ↦ ground (arith, c)
        | inl (some row, c) ↦ ground (arith, c, after_claim_quiet row (claim w env ctx db).1)
      ]
