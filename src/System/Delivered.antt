-- ===== src/System/Delivered.antt =====
-- From `Outbox::dispatch` to the handler: what the worker gives to it.
use rust_events.Base.{
  ℕ, suc, ◌≡◌, ◌≤◌, refl, ap, subst, ◌∙◌, Bool, true, false, inl, inr, Bool-cases, some, List, [],
  ◌∷◌, ◌++◌, Str, str_eq, str_eq_iff, Result, ok, any, first, select_where, update_where,
  AreDistinct, ◌==◌, arith,
}
use rust_events.Handler.{
  DomainEvent, EventHandler, HandlerContext, HandlerEnvelope, HandlerError, Bytes, handle_erased,
  erase_run,
}
use rust_events.Registry.{RegisteredHandler, find_handler, handler_ids_for}
use rust_events.Builder.{Outbox}
use rust_events.Schema.{DispatchKey, Db, EventRow, Delivery, is_delivery}
use rust_events.Schema.Status.{queued}
use rust_events.Dispatch.Context.{DispatchContext}
use rust_events.Dispatch.Errors.{dispatched}
use rust_events.Dispatch.Transaction.{Pusher, Json, Tx, queued_delivery, fan_out}
use rust_events.Dispatch.Writes.{dispatch_writes}
use rust_events.Dispatch.{DispatchIo, event_row, dispatch}
use rust_events.Util.{JsonValue}
use rust_events.Purge.Statements.{has_id, same_event}
use rust_events.Runtime.Jobs.{JobContext}
use rust_events.Runtime.Claim.{key_of_event, Row, is_claimable, set_running, clamp_i32, claimed_row}
use rust_events.Runtime.Invoke.{our_timeout, timeout, outcome_of, result_of}
use rust_events.Runtime.Verdict.{finish, answer}
use rust_events.Runtime.Outcome.{Answers, settled, handle_envelope_settles}
use rust_events.Runtime.{WorkerIo, OutboxRuntime, handler_context, invoke, handle_envelope}
use rust_events.System.Sound.{IsSound, IsSound-mono, IsWellFormed}
use rust_events.System.Keyed.{key_of_event-dispatch}
use rust_events.System.Dispatches.{Transacts-IsSound}
use rust_events.System.Handlers.{none_refers, any-is_delivery}
use rust_events.System.{begun, dispatches}

first-append :
    (f : Delivery → Bool) (ds rs : List Delivery)
    → any f ds ≡ false
    → first (select_where f (ds ++ rs)) ≡ first (select_where f rs)
first-append f [] rs h = refl
first-append f (d ∷ ds) rs h = ground (arith, h, first-append f ds rs)

any_id_swap_back :
    {M : Type 0} (i : ℕ) (es : List (EventRow M))
    → any (λ e. i == e.id) es ≡ false
    → has_id es i ≡ false
any_id_swap_back i [] h = refl
any_id_swap_back i (e ∷ es) h = ground (arith, h, any_id_swap_back i es)

-- The fan-out has a queued delivery for each handler.
first-fan_out :
    (now i next : ℕ) (h : Str) (hs : List Str)
    → any (str_eq h) hs ≡ true
    → (d : Delivery) × (first (select_where (is_delivery i h) (fan_out now i next hs)) ≡ some d)
      × (d.status ≡ queued)
first-fan_out now i next h [] e = absurd (ground (arith, e))
first-fan_out now i next h (g ∷ hs) e = elim (Bool-cases (str_eq h g)) [
  | inl same ↦
      (queued_delivery now i next g, ground (arith, same, str_eq_iff h g, str_eq_iff g h), refl)
  | inr other ↦
      let (d, found, waits) = first-fan_out now i (suc next) h hs (ground (arith, e, other)) in
      (d, ground (arith, other, found, str_eq_iff h g, str_eq_iff g h), waits)
]

module _ {B M : Type 0} (p : Pusher) (json : Json M) (outbox : Outbox B M) (io : DispatchIo)
    (ctx : DispatchContext M) (e : DomainEvent) (event : e.Event) (tx : Tx M p.Jobs) where
  abbrev tables : Db M
  tables = (dispatch p json outbox io ctx e event tx).1.db

  tables-IsSound : (t u : ℕ) → t ≤ u → io.now ≤ u → IsWellFormed t tx.db → IsSound u tables
  tables-IsSound t u le later w =
      Transacts-IsSound p json outbox io.now u tx (dispatch p json outbox io ctx e event tx).1 later
        (dispatches io ctx e event tx tx (begun io.now tx)) (IsSound-mono tx.db le w.sound)

  -- The new event's id was new.
  new_event_is_new :
      (t u : ℕ) (payload : Bytes) (headers : JsonValue M)
      → t ≤ u
      → io.now ≤ u
      → IsWellFormed t tx.db
      → tables.events ≡ event_row p json outbox io ctx e event payload headers ∷ tx.db.events
      → has_id tx.db.events io.event_id ≡ false
  new_event_is_new t u payload headers le later w events =
      let s = tables-IsSound t u le later w in
      let apart : AreDistinct same_event
          (event_row p json outbox io ctx e event payload headers ∷ tx.db.events) =
        subst (AreDistinct same_event) events s.events_distinct in
      any_id_swap_back io.event_id tx.db.events apart.0

  -- What the handler's run comes to, under the timeout and the worker's policies.
  abbrev pub result_of_run :
      OutboxRuntime B M
      → RegisteredHandler M
      → EventHandler M e
      → HandlerContext M
      → Result (Unit {0}) HandlerError
  result_of_run rt registered inner hc =
      let limit = our_timeout rt.config.handler_timeout registered.handler_timeout in
      result_of rt.config.decode_error_strategy
        (outcome_of rt.config.panic_policy (timeout limit (erase_run (inner event hc))))

  handle_erased-eq-ok :
      (inner : EventHandler M e) (b : Bytes) (hc : HandlerContext M)
      → e.from_slice b ≡ ok event
      → handle_erased e inner b hc ≡ erase_run (inner event hc)
  unfolding handle_erased
  handle_erased-eq-ok inner b hc decodes = rw (decodes, handle_erased) refl

  invoke-handle_erased :
      (rt : OutboxRuntime B M) (registered : RegisteredHandler M) (inner : EventHandler M e)
      (wio : WorkerIo) (env : HandlerEnvelope) (jctx : JobContext) (row : Row M)
      → registered.handler ≡ handle_erased e inner
      → e.from_slice row.payload ≡ ok event
      → invoke wio env jctx rt registered row
        ≡ result_of_run rt registered inner (handler_context wio env jctx rt.empty_headers row)
  unfolding invoke
  invoke-handle_erased rt registered inner wio env jctx row typed decodes =
      rw
        (
          typed,
          handle_erased-eq-ok inner row.payload (handler_context wio env jctx rt.empty_headers row)
              decodes,
        )
        refl

  -- What a dispatch that returned `Dispatched` wrote is what the handler gets: a worker that takes
  -- the job of a handler for the event's type runs the handler on the event itself, if serde reads
  -- back what it wrote, with the dispatch's tenant, bounded context and idempotency key, and
  -- settles the delivery by what the run comes to under the timeout and the policies. (The tables
  -- were well formed, the handler is registered for the type at the dispatch and with the worker,
  -- the server answers, and the clock does not run backwards.)
  pub dispatched_reaches_handler :
      (t id n : ℕ) (h : Str) (rt : OutboxRuntime B M) (wio : WorkerIo) (jctx : JobContext)
      (inner : EventHandler M e) (registered : RegisteredHandler M)
      → IsWellFormed t tx.db
      → t ≤ wio.claim_time
      → io.now ≤ wio.claim_time
      → (dispatch p json outbox io ctx e event tx).0 ≡ ok (dispatched id n)
      → any (str_eq h) (handler_ids_for outbox.registry e.event_type) ≡ true
      → find_handler rt.registry h ≡ some registered
      → registered.handler ≡ handle_erased e inner
      → ((b : Bytes) → e.to_vec event ≡ ok b → e.from_slice b ≡ ok event)
      → Answers wio
      → (hc : HandlerContext M) × (hc.event_id ≡ id)
        × (hc.tenant_id ≡ ctx.tenant_id)
        × (hc.producer_bc ≡ ctx.producer_bc)
        × (hc.attempt ≡ jctx.attempt)
        × (hc.dispatch_idempotency_key ≡ ctx.idempotency_key)
        × (let result = result_of_run rt registered inner hc in
            handle_envelope wio (record { event_id = id; handler_id = h }) jctx rt tables ≡ (
              answer result,
              record tables {
                deliveries =
                    update_where
                      (is_claimable id h)
                      (λ d.
                        finish jctx wio.mark_time result
                          (set_running wio.claim_time (clamp_i32 jctx.attempt) jctx.lease_token d))
                      tables.deliveries;
              },
            ))
  dispatched_reaches_handler t id n h rt wio jctx inner registered w le later went for_type here
        typed codec answers =
      let (same_id, _, (payload, headers, encodes, events), deliveries, _) =
        dispatch_writes p json outbox io ctx e event tx id n went in
      let s = tables-IsSound t wio.claim_time le later w in
      let row = event_row p json outbox io ctx e event payload headers in
      let env : HandlerEnvelope = record { event_id = id; handler_id = h } in
      let claimed = claimed_row id h tables row in
      let fresh = new_event_is_new t wio.claim_time payload headers le later w events in
      let none_before =
        none_refers (λ (d : Delivery). d.event_id) tx.db.events tx.db.deliveries io.event_id
          w.sound.deliveries.referring fresh in
      let no_keys =
        none_refers (λ (k : DispatchKey). k.event_id) tx.db.events tx.db.dispatch_keys io.event_id
          w.keys_referring fresh in
      let keyed = key_of_event-dispatch p json outbox io ctx e event tx went no_keys in
      let (d, found, waits) =
        first-fan_out io.now io.event_id tx.db.next_delivery_id h _ for_type in
      let has_event : first (select_where (λ e. e.id == id) tables.events) ≡ some row =
        ground (arith, events, same_id) in
      let has_delivery : first (select_where (is_delivery id h) tables.deliveries) ≡ some d =
        rw (deliveries, same_id)
          (first-append (is_delivery io.event_id h) tx.db.deliveries _
              (any-is_delivery io.event_id h tx.db.deliveries none_before)
            ∙ found) in
      let ran =
        invoke-handle_erased rt registered inner wio env jctx claimed typed
          (codec payload encodes.0) in
      (
        handler_context wio env jctx rt.empty_headers claimed,
        unfold handler_context in refl,
        unfold handler_context in refl,
        unfold handler_context in refl,
        unfold handler_context in refl,
        unfold handler_context in (ap (λ i. key_of_event i tables.dispatch_keys) same_id ∙ keyed),
        handle_envelope_settles wio env jctx rt tables answers s.deliveries.valid row d
              s.deliveries.rows_distinct has_event has_delivery registered (ground (arith, waits))
              here
            ∙ ap
                (λ result.
                  (answer result, settled wio env jctx rt tables answers s.deliveries.valid result))
                ran,
      )
