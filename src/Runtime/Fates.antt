-- ===== src/Runtime/Fates.antt =====
-- What a handler's run means for its delivery, as a table: the policies, the time limit and the
-- attempts in one place. In src/runtime.rs they are spread over steps 5 to 7 of `handle_envelope`.
use rust_events.Base.{
  ℕ, ◌≡◌, Bool, true, false, some, List, [], ◌∷◌, Str, Result, ok, err, first, select_where,
  update_where, ◌==◌, leb, ltb, inl, inr, Bool-cases, arith,
}
use rust_events.Handler.{
  HandlerEnvelope, HandlerError, retry_error, skip_error, abort_error, retry, abort, HandlerOutcome,
  done, handler_error, decode_failed, Ending, Async, returned, panicked, pending,
}
use rust_events.Registry.{RegisteredHandler, find_handler}
use rust_events.Builder.Config.{
  DecodeStrategy, retry_decode, abort_decode, PanicPolicy, retry_panic, dead_panic,
}
use rust_events.Schema.{Db, Delivery, EventRow, is_delivery}
use rust_events.Schema.Status.{DeliveryStatus, sent, awaiting_retry, skipped, dead, is_terminal}
use rust_events.Schema.Valid.{AreValid, HasUniqueKeys}
use rust_events.Runtime.Jobs.{JobContext, JobError}
use rust_events.Runtime.Claim.{is_claimable, set_running, clamp_i32, claimed_row}
use rust_events.Runtime.Invoke.{our_timeout, ending_in_time, timeout, outcome_of, result_of}
use rust_events.Runtime.Verdict.{finish, answer}
use rust_events.Runtime.Outcome.{Answers, handle_envelope_settles}
use rust_events.Runtime.Attempts.{asks_again}
use rust_events.Runtime.{WorkerIo, OutboxRuntime, handler_context, invoke, handle_envelope}

pub data Fate : Type 0 where
  arrives tries_again is_passed_over dies : Fate

-- The handler, or the decoding in front of it, has returned.
abbrev pub fate_of_return : DecodeStrategy → HandlerOutcome → Fate
fate_of_return strategy done = arrives
fate_of_return strategy (handler_error (retry_error _ _)) = tries_again
fate_of_return strategy (handler_error (skip_error _)) = is_passed_over
fate_of_return strategy (handler_error (abort_error _)) = dies
fate_of_return retry_decode (decode_failed _) = tries_again
fate_of_return abort_decode (decode_failed _) = dies

abbrev pub fate_of_panic : PanicPolicy → Fate
fate_of_panic retry_panic = tries_again
fate_of_panic dead_panic = dies

-- A run that the timer cuts off is tried again, whatever would have become of it.
abbrev pub fate_of : DecodeStrategy → PanicPolicy → Bool → Ending HandlerOutcome → Fate
fate_of strategy policy false _ = tries_again
fate_of strategy policy true (returned o) = fate_of_return strategy o
fate_of strategy policy true (panicked _) = fate_of_panic policy
fate_of strategy policy true pending = tries_again

-- On the last attempt there is no other.
abbrev pub status_after : Bool → Fate → DeliveryStatus
status_after last arrives = sent
status_after true tries_again = dead
status_after false tries_again = awaiting_retry
status_after last is_passed_over = skipped
status_after last dies = dead

abbrev pub is_again : Fate → Bool
is_again tries_again = true
is_again _ = false

abbrev pub is_arrival : Fate → Bool
is_arrival arrives = true
is_arrival _ = false

abbrev pub is_success : Result (Unit {0}) JobError → Bool
is_success (ok _) = true
is_success (err _) = false

-- The row that an UPDATE of the claimable rows finds.
first-update_where :
    (event_id : ℕ) (handler_id : Str) (f : Delivery → Delivery) (ds : List Delivery) (d : Delivery)
    → ((x : Delivery) → is_delivery event_id handler_id (f x) ≡ is_delivery event_id handler_id x)
    → first (select_where (is_delivery event_id handler_id) ds) ≡ some d
    → is_terminal d.status ≡ false
    → first (
        select_where
          (is_delivery event_id handler_id)
          (update_where (is_claimable event_id handler_id) f ds))
      ≡ some (f d)
first-update_where event_id handler_id f [] d same found active = absurd (ground (arith, found))
first-update_where event_id handler_id f (x ∷ xs) d same found active =
    ground (arith, found, active, same x, first-update_where event_id handler_id f xs d same)

-- Steps 5 to 7 against the table.
result_of-fate :
    (strategy : DecodeStrategy) (policy : PanicPolicy) (limit now : ℕ) (run : Async HandlerOutcome)
    (ctx : JobContext) (d : Delivery)
    → let result = result_of strategy (outcome_of policy (timeout limit run)) in
      let fate = fate_of strategy policy (ltb run.last_yield limit) run.ending in
      ((finish ctx now result d).status ≡ status_after (leb ctx.max_attempts ctx.attempt) fate)
      × (asks_again (answer result) ≡ is_again fate)
      × (is_success (answer result) ≡ is_arrival fate)
unfolding timeout outcome_of result_of retry abort
result_of-fate strategy policy limit now run ctx d = elim (Bool-cases (ltb run.last_yield limit)) [
  | inr late ↦ rw late (ground arith)
  | inl in_time ↦ rw in_time (ended run.ending)
]
  where
    ended :
        (e : Ending HandlerOutcome)
        → let result = result_of strategy (outcome_of policy (ending_in_time e)) in
          let fate = fate_of strategy policy true e in
          ((finish ctx now result d).status ≡ status_after (leb ctx.max_attempts ctx.attempt) fate)
          × (asks_again (answer result) ≡ is_again fate)
          × (is_success (answer result) ≡ is_arrival fate)
    ended e = ground arith

module _ {B M : Type 0} (io : WorkerIo) (env : HandlerEnvelope) (ctx : JobContext)
    (rt : OutboxRuntime B M) (db : Db M) (ev : EventRow M) (h : RegisteredHandler M) where
  -- The fate that the handler's run has by the table.
  abbrev pub fate : Fate
  fate =
      let row = claimed_row env.event_id env.handler_id db ev in
      let run = h.handler row.payload (handler_context io env ctx rt.empty_headers row) in
      let limit = our_timeout rt.config.handler_timeout h.handler_timeout in
      fate_of rt.config.decode_error_strategy rt.config.panic_policy (ltb run.last_yield limit)
        run.ending

  abbrev result : Result (Unit {0}) HandlerError
  result = invoke io env ctx rt h (claimed_row env.event_id env.handler_id db ev)

  invoke-fate :
      (d : Delivery)
      → ((finish ctx io.mark_time result d).status
          ≡ status_after (leb ctx.max_attempts ctx.attempt) fate)
        × (asks_again (answer result) ≡ is_again fate)
        × (is_success (answer result) ≡ is_arrival fate)
  unfolding invoke
  invoke-fate d =
      let row = claimed_row env.event_id env.handler_id db ev in
      result_of-fate rt.config.decode_error_strategy rt.config.panic_policy
        (our_timeout rt.config.handler_timeout h.handler_timeout) io.mark_time
        (h.handler row.payload (handler_context io env ctx rt.empty_headers row)) ctx d

  -- A delivery that is still to be made is sent if its handler returns Ok in time, skipped or dead
  -- if it returns Skip or Abort in time, and dead if its payload does not decode or the handler
  -- panics in time, where the policy for that is final. In every other case it awaits a retry, or
  -- is dead on the last attempt: so if the handler waits for ever, or is not over in time. A run is
  -- in time if it does not yield at the time limit or later: one that blocks its thread and ends in
  -- the same poll is in time however long it takes, and one that blocks it for ever leaves no
  -- attempt to speak of. The queue is asked to run the job again in just these other cases, and is
  -- told that it has succeeded just if the delivery is sent. (The server answers both statements,
  -- the clock does not run backwards between them, the rows are valid and have unique keys, the
  -- event and the delivery are there, and the handler is registered.)
  pub delivery_has_its_fate :
      (answers : Answers io) (v : AreValid io.claim_time db.deliveries) (d : Delivery)
      → HasUniqueKeys db.deliveries
      → first (select_where (λ e. e.id == env.event_id) db.events) ≡ some ev
      → first (select_where (is_delivery env.event_id env.handler_id) db.deliveries) ≡ some d
      → is_terminal d.status ≡ false
      → find_handler rt.registry env.handler_id ≡ some h
      → let (r, db') = handle_envelope io env ctx rt db in
        ((d' : Delivery) × (first
              (select_where (is_delivery env.event_id env.handler_id) db'.deliveries)
            ≡ some d')
          × (d'.status ≡ status_after (leb ctx.max_attempts ctx.attempt) fate))
        × (asks_again r ≡ is_again fate)
        × (is_success r ≡ is_arrival fate)
  delivery_has_its_fate answers v d unique has_event has_delivery active registered =
      let claimed = set_running io.claim_time (clamp_i32 ctx.attempt) ctx.lease_token in
      let settles =
        handle_envelope_settles io env ctx rt db answers v ev d unique has_event has_delivery h
          active registered in
      let (status, again, success) = invoke-fate (claimed d) in
      let found =
        first-update_where env.event_id env.handler_id
          (λ x. finish ctx io.mark_time result (claimed x)) db.deliveries d (λ x. ground arith)
          has_delivery active in
      rw settles ((finish ctx io.mark_time result (claimed d), found, status), again, success)
