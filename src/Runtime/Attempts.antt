-- ===== src/Runtime/Attempts.antt =====
-- What an attempt comes to, in the table and for the queue.
use rust_events.Base.{
  ℕ, ◌≡◌, refl, sym, ap, subst, Bool, true, false, not, ◌&&◌, ◌||◌, some, List, [], ◌∷◌, Str,
  Result, ok, err, first, any, leb, select_where, update_where, ◌==◌, ◌∙◌, inl, inr, Bool-cases,
  Option-cases, str, arith,
}
use rust_events.Handler.{HandlerEnvelope, HandlerError, abort_error}
use rust_events.Registry.{find_handler}
use rust_events.Schema.{Db, Delivery, EventRow, is_delivery}
use rust_events.Schema.Status.{is_terminal}
use rust_events.Schema.Valid.{AreValid, HasUniqueKeys, any_of_key}
use rust_events.Runtime.Jobs.{JobContext, JobError}
use rust_events.Runtime.Claim.{is_claimable, set_running, clamp_i32, claimed_row}
use rust_events.Runtime.Redaction.{is_retry}
use rust_events.Runtime.Verdict.{finish, answer}
use rust_events.Runtime.Outcome.{
  Answers, settled, handle_envelope_settles, handle_envelope-terminal, handle_envelope-unregistered,
}
use rust_events.Runtime.{WorkerIo, OutboxRuntime, invoke, handle_envelope}

-- Whether the queue is told to run the job again.
abbrev pub asks_again : {A : Type 0} → Result A JobError → Bool
asks_again (ok _) = false
asks_again (err x) = is_retry x

-- Whether the job is done: it was not asked for again, or has used its attempts.
abbrev pub is_last : JobContext → Result (Unit {0}) JobError → Bool
is_last ctx r = not (asks_again r) || leb ctx.max_attempts ctx.attempt

finish-is_terminal :
    (ctx : JobContext) (now : ℕ) (result : Result (Unit {0}) HandlerError) (d : Delivery)
    → is_terminal (finish ctx now result d).status ≡ is_last ctx (answer result)
finish-is_terminal ctx now result d = ground arith

finish-is_delivery :
    (event_id : ℕ) (handler_id : Str) (ctx : JobContext) (now : ℕ)
    (result : Result (Unit {0}) HandlerError) (d : Delivery)
    → is_delivery event_id handler_id (finish ctx now result d) ≡ is_delivery event_id handler_id d
finish-is_delivery event_id handler_id ctx now result d = ground arith

-- The one row that an UPDATE of the claimable rows finds.
any-update_where :
    (event_id : ℕ) (handler_id : Str) (f : Delivery → Delivery) (over : Bool) (ds : List Delivery)
    → ((x : Delivery) → is_delivery event_id handler_id (f x) ≡ is_delivery event_id handler_id x)
    → ((x : Delivery) → is_terminal (f x).status ≡ over)
    → any
        (λ x. is_delivery event_id handler_id x && is_terminal x.status)
        (update_where (is_claimable event_id handler_id) f ds)
      ≡ any (λ x. is_delivery event_id handler_id x && (is_terminal x.status || over)) ds
any-update_where event_id handler_id f over [] same ends = refl
any-update_where event_id handler_id f over (x ∷ xs) same ends =
    ground (arith, same x, ends x, any-update_where event_id handler_id f over xs same ends)

module _ {B M : Type 0} (io : WorkerIo) (env : HandlerEnvelope) (ctx : JobContext)
    (rt : OutboxRuntime B M) (db : Db M) (answers : Answers io)
    (v : AreValid io.claim_time db.deliveries) (ev : EventRow M) (d : Delivery)
    (unique : HasUniqueKeys db.deliveries)
    (has_event : first (select_where (λ e. e.id == env.event_id) db.events) ≡ some ev)
    (has_delivery : first (select_where (is_delivery env.event_id env.handler_id) db.deliveries)
      ≡ some d) where
  abbrev is_over : Db M → Bool
  is_over s =
      any (λ x. is_delivery env.event_id env.handler_id x && is_terminal x.status) s.deliveries

  settled-is_over :
      (result : Result (Unit {0}) HandlerError)
      → is_terminal d.status ≡ false
      → is_over (settled io env ctx rt db answers v result) ≡ is_last ctx (answer result)
  settled-is_over result active =
      let claimed = set_running io.claim_time (clamp_i32 ctx.attempt) ctx.lease_token in
      let over = is_last ctx (answer result) in
      any-update_where env.event_id env.handler_id _ over db.deliveries
        (λ x. finish-is_delivery env.event_id env.handler_id ctx io.mark_time result (claimed x))
        (λ x. finish-is_terminal ctx io.mark_time result (claimed x))
      ∙ any_of_key env.event_id env.handler_id (λ x. is_terminal x.status || over) db.deliveries d
          unique has_delivery
      ∙ ap (λ b. b || over) active

  abbrev Agrees : Result (Unit {0}) JobError × Db M → Type 0
  Agrees r = is_over r.1 ≡ is_last ctx r.0

  -- The table and the queue agree: after an attempt, the delivery is sent, skipped or dead exactly
  -- when the queue is not asked to run the job again or the job has used its attempts, whatever the
  -- handler does, be it that it fails, panics, waits for ever or is not registered. (The server
  -- answers both statements, the clock does not run backwards between them, the rows are valid and
  -- have unique keys, and the event and the delivery are there. A run that blocks its thread for
  -- ever leaves no attempt to speak of.)
  pub queue_and_table_agree :
      let (r, db') = handle_envelope io env ctx rt db in
      any (λ x. is_delivery env.event_id env.handler_id x && is_terminal x.status) db'.deliveries
      ≡ (not (asks_again r) || leb ctx.max_attempts ctx.attempt)
  queue_and_table_agree = elim (Bool-cases (is_terminal d.status)) [
    | inl over ↦
        subst Agrees
          (sym (
            handle_envelope-terminal io env ctx rt db answers v ev d unique has_event has_delivery
              over))
          (any_of_key env.event_id env.handler_id (λ x. is_terminal x.status) db.deliveries d unique
              has_delivery
            ∙ over)
    | inr active ↦ elim (Option-cases (find_handler rt.registry env.handler_id)) [
      | inl missing ↦
          subst Agrees
            (sym (
              handle_envelope-unregistered io env ctx rt db answers v ev d unique has_event
                has_delivery active missing))
            (settled-is_over (err (abort_error (str "handler not registered"))) active)
      | inr (h, registered) ↦
          subst Agrees
            (sym (
              handle_envelope_settles io env ctx rt db answers v ev d unique has_event has_delivery
                h active registered))
            (settled-is_over
              (invoke io env ctx rt h (claimed_row env.event_id env.handler_id db ev)) active)
    ]
  ]

  -- So a job's last attempt leaves its delivery sent, skipped or dead.
  last_attempt_settles :
      leb ctx.max_attempts ctx.attempt ≡ true → is_over (handle_envelope io env ctx rt db).1 ≡ true
  last_attempt_settles last = ground (arith, last, queue_and_table_agree)
