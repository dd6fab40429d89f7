-- ===== src/Runtime/Outcome.antt =====
-- What handling a job comes to when the server answers.
use rust_events.Base.{
  ℕ, ◌≤◌, ◌≡◌, refl, ◌∙◌, ap, subst, Bool, true, false, none, some, Str, str, Result, ok, err,
  update_where, update_where-update_where, update_where_of_any, select_where, first, any, ◌==◌, not,
  arith,
}
use rust_events.Handler.{HandlerEnvelope, HandlerError, abort_error}
use rust_events.Registry.{RegisteredHandler, find_handler}
use rust_events.Schema.{Db, Delivery, EventRow, reply, over, is_delivery}
use rust_events.Schema.Status.{is_terminal, DeliveryStatus, as_str, queued}
use rust_events.Schema.Valid.{AreValid, AreValid-mono, HasUniqueKeys, any_of_key}
use rust_events.Runtime.Jobs.{JobContext, JobError, abort_job}
use rust_events.Runtime.Marks.{is_fenced}
use rust_events.Runtime.Claim.{
  Row, set_running, is_claimable, clamp_i32, claimed_row, found_row, locked_status,
}
use rust_events.Runtime.Statements.{claim_delivery_lem, claim_delivery-AreValid}
use rust_events.Runtime.Verdict.{finish, answer, settle_lem, mark_unregistered_lem}
use rust_events.Runtime.{
  WorkerIo, OutboxRuntime, already_terminal, proceed, claim_state, is_terminal_label, settle,
  invoke, deliver, after_claim, claim, handle_envelope,
}

-- The server answers both statements, and the clock does not run backwards between them.
pub record Answers (io : WorkerIo) : Type 0 where
  pub claim_answered : io.claim_wire ≡ reply
  pub mark_answered : io.mark_wire ≡ reply
  pub in_order : io.claim_time ≤ io.mark_time

-- A claimed row is under the claimer's fence, and no other row is.
claimed-fence :
    (event_id now attempt token : ℕ) (handler_id : Str) (d : Delivery)
    → is_claimable event_id handler_id d ≡ true
    → is_fenced event_id handler_id token (set_running now attempt token d) ≡ true
claimed-fence event_id now attempt token handler_id d h = ground arith

unclaimed-fence :
    (event_id token : ℕ) (handler_id : Str) (d : Delivery)
    → is_claimable event_id handler_id d ≡ false
    → is_fenced event_id handler_id token d ≡ false
unclaimed-fence event_id token handler_id d h = ground arith

label-is_terminal : (s : DeliveryStatus) → is_terminal_label (as_str s) ≡ is_terminal s
unfolding is_terminal_label as_str
label-is_terminal queued = refl
label-is_terminal _ = refl

ap_deliveries :
    {M A : Type 0} (now : ℕ) {r s : A × Db M}
    → r ≡ s
    → AreValid now r.1.deliveries
    → AreValid now s.1.deliveries
ap_deliveries now e v = subst (λ t. AreValid now t.1.deliveries) e v

module _ {B M : Type 0} (io : WorkerIo) (env : HandlerEnvelope) (ctx : JobContext)
    (rt : OutboxRuntime B M) (db : Db M) (answers : Answers io)
    (v : AreValid io.claim_time db.deliveries) where
  abbrev claimable : Delivery → Bool
  claimable = is_claimable env.event_id env.handler_id

  abbrev claimed : Delivery → Delivery
  claimed = set_running io.claim_time (clamp_i32 ctx.attempt) ctx.lease_token

  pub claim_lem : claim io env ctx db ≡ (
    ok (found_row env.event_id env.handler_id db),
    record db { deliveries = update_where claimable claimed db.deliveries },
  )
  unfolding claim over
  claim_lem = rw (
    answers.claim_answered,
    claim_delivery_lem io.claim_time env.event_id env.handler_id (clamp_i32 ctx.attempt)
        ctx.lease_token db v,
  )

  -- The database after the claim and the mark.
  abbrev pub settled : Result (Unit {0}) HandlerError → Db M
  settled result = record db {
    deliveries =
        update_where claimable (λ d. finish ctx io.mark_time result (claimed d)) db.deliveries;
  }

  claimed-AreValid : AreValid io.mark_time (update_where claimable claimed db.deliveries)
  claimed-AreValid = AreValid-mono _ answers.in_order (
      ap_deliveries io.claim_time
        (claim_delivery_lem io.claim_time env.event_id env.handler_id (clamp_i32 ctx.attempt)
          ctx.lease_token db v)
        (claim_delivery-AreValid io.claim_time env.event_id env.handler_id (clamp_i32 ctx.attempt)
          ctx.lease_token db v))

  settle-claimed :
      (result : Result (Unit {0}) HandlerError)
      → settle io env ctx result
          (record db { deliveries = update_where claimable claimed db.deliveries })
        ≡ (answer result, settled result)
  settle-claimed result =
      rw
        (settle_lem io env ctx
          (record db { deliveries = update_where claimable claimed db.deliveries }) result
          answers.mark_answered claimed-AreValid)
        (rw (
          update_where-update_where claimable
            (is_fenced env.event_id env.handler_id ctx.lease_token) claimed
            (finish ctx io.mark_time result) db.deliveries
            (claimed-fence env.event_id io.claim_time (clamp_i32 ctx.attempt) ctx.lease_token
              env.handler_id)
            (unclaimed-fence env.event_id ctx.lease_token env.handler_id)))

  module _ (ev : EventRow M) (d : Delivery) (unique : HasUniqueKeys db.deliveries)
      (has_event : first (select_where (λ e. e.id == env.event_id) db.events) ≡ some ev)
      (has_delivery : first (select_where (is_delivery env.event_id env.handler_id) db.deliveries)
        ≡ some d) where
    pub claim_state-proceed :
        is_terminal d.status ≡ false
        → claim_state
            (locked_status env.event_id env.handler_id db.deliveries)
            (any claimable db.deliveries)
          ≡ proceed
    unfolding claim_state
    claim_state-proceed active = ground (
      arith,
      has_delivery,
      any_of_key env.event_id env.handler_id (λ x. not (is_terminal x.status)) db.deliveries d
          unique has_delivery,
    )

    pub claim_state-terminal :
        is_terminal d.status ≡ true
        → claim_state
            (locked_status env.event_id env.handler_id db.deliveries)
            (any claimable db.deliveries)
          ≡ already_terminal
    unfolding claim_state
    claim_state-terminal over = ground (
      arith,
      has_delivery,
      label-is_terminal d.status,
      any_of_key env.event_id env.handler_id (λ x. not (is_terminal x.status)) db.deliveries d
          unique has_delivery,
    )

    abbrev row : Row M
    row = claimed_row env.event_id env.handler_id db ev

    abbrev claimed_db : Db M
    claimed_db = record db { deliveries = update_where claimable claimed db.deliveries }

    handle_envelope-claimed :
        handle_envelope io env ctx rt db ≡ after_claim io env ctx rt row claimed_db
    unfolding handle_envelope
    handle_envelope-claimed = ground (arith, claim_lem, has_event)

    after_claim-proceed :
        is_terminal d.status ≡ false
        → after_claim io env ctx rt row claimed_db ≡ deliver io env ctx rt row claimed_db
    unfolding after_claim
    after_claim-proceed active = rw (claim_state-proceed active, after_claim)

    -- If the server answers both statements, the clock does not run backwards between them, the
    -- rows are valid and have unique keys, and the event is there, then a delivery that is not
    -- terminal, of a registered handler, is settled by what the handler's run comes to: its row is
    -- claimed and finished accordingly, every other row stays, and the queue is given the matching
    -- answer.
    pub handle_envelope_settles :
        (h : RegisteredHandler M)
        → is_terminal d.status ≡ false
        → find_handler rt.registry env.handler_id ≡ some h
        → let result = invoke io env ctx rt h (claimed_row env.event_id env.handler_id db ev) in
          handle_envelope io env ctx rt db ≡ (answer result, settled result)
    unfolding deliver
    handle_envelope_settles h active registered =
        handle_envelope-claimed
        ∙ after_claim-proceed active
        ∙ (rw (registered, deliver) (settle-claimed (invoke io env ctx rt h row)))

    none_claimable : is_terminal d.status ≡ true → any claimable db.deliveries ≡ false
    none_claimable over =
        any_of_key env.event_id env.handler_id (λ x. not (is_terminal x.status)) db.deliveries d
          unique has_delivery
        ∙ ap not over

    -- If the server answers both statements, the clock does not run backwards between them, the
    -- rows are valid and have unique keys, and the event is there, a delivery that is sent, skipped
    -- or dead is answered Ok and the database stays as it is: its handler is not called again.
    pub handle_envelope-terminal :
        is_terminal d.status ≡ true → handle_envelope io env ctx rt db ≡ (ok tt, db)
    unfolding after_claim
    handle_envelope-terminal over =
        handle_envelope-claimed
        ∙ rw (claim_state-terminal over, after_claim)
            (rw (update_where_of_any claimable claimed db.deliveries (none_claimable over)))

    -- If the server answers both statements, the clock does not run backwards between them, the
    -- rows are valid and have unique keys, and the event is there, a delivery that is not terminal,
    -- of a handler that is not registered, is dead at once, and its job is aborted.
    pub handle_envelope-unregistered :
        is_terminal d.status ≡ false
        → find_handler rt.registry env.handler_id ≡ none
        → handle_envelope io env ctx rt db ≡ (
          err (abort_job (str "handler not registered")),
          settled (err (abort_error (str "handler not registered"))),
        )
    unfolding deliver
    handle_envelope-unregistered active missing =
        handle_envelope-claimed
        ∙ after_claim-proceed active
        ∙ rw (missing, deliver)
            (mark_unregistered_lem io env ctx claimed_db answers.mark_answered claimed-AreValid
              ∙ ap (λ (s : Db M). (err (abort_job (str "handler not registered")), s))
                  (ap (λ (r : Result (Unit {0}) JobError × Db M). r.1)
                    (settle-claimed (err (abort_error (str "handler not registered"))))))
