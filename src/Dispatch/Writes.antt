-- ===== src/Dispatch/Writes.antt =====
-- A whole dispatch that went through, from the caller's transaction to the one it leaves.
use rust_events.Base.{
  ℕ, ◌≡◌, sym, ap, ◌∙◌, none, some, List, ◌∷◌, ◌++◌, map, Str, ok, inl, inr, Result-cases, length,
  ◌>>=◌, arith,
}
use rust_events.Util.{JsonValue}
use rust_events.Handler.{DomainEvent, Bytes}
use rust_events.Builder.{Outbox}
use rust_events.Dispatch.Context.{DispatchContext}
use rust_events.Dispatch.Errors.{dispatched}
use rust_events.Dispatch.Transaction.{Pusher, Json, Tx, fan_out}
use rust_events.Dispatch.Rejection.{EncodesTo, handler_ids, dispatch_accepted, dispatch-eq-ok}
use rust_events.Dispatch.Effects.{reserve_keeps, write_event-eq-ok, write_event_writes}
use rust_events.Dispatch.{
  DispatchIo, pgwq_queue, envelope_for, event_row, reserve, write_event, after_reserve, dispatch,
}

module _ {B M : Type 0} (p : Pusher) (json : Json M) (outbox : Outbox B M) (io : DispatchIo)
    (ctx : DispatchContext M) (e : DomainEvent) (event : e.Event) (tx : Tx M p.Jobs) where
  -- Past the key's reservation, which a dispatched event passed.
  pub reserved_then_wrote :
      (payload : Bytes) (ids : List Str) {id n : ℕ}
      → ((reserve p json outbox io ctx e event
            >>= after_reserve p json outbox io ctx e event payload ids)
          tx).0
        ≡ ok (dispatched id n)
      → ((reserve p json outbox io ctx e event tx).0 ≡ ok none)
        × ((reserve p json outbox io ctx e event
                >>= after_reserve p json outbox io ctx e event payload ids)
              tx
            ≡ write_event p json outbox io ctx e event payload ids
                (reserve p json outbox io ctx e event tx).1)
  unfolding after_reserve
  reserved_then_wrote payload ids {id} {n} h =
      elim (Result-cases (reserve p json outbox io ctx e event tx).0) [
        | inr (x, r) ↦ absurd (ground arith)
        | inl (some k, r) ↦ absurd (ground arith)
        | inl (none, r) ↦ (r, ground arith)
      ]

  -- A dispatch that returns `Dispatched` has written one event row with the encoded payload, one
  -- queued delivery for each registered handler in the order of registration, and has pushed one
  -- job for each of them, keyed by the handler if it has a concurrency limit.
  pub dispatch_writes :
      (id n : ℕ)
      → (dispatch p json outbox io ctx e event tx).0 ≡ ok (dispatched id n)
      → let tx' = (dispatch p json outbox io ctx e event tx).1 in
        let ids = handler_ids p json outbox io ctx e event tx in
        (id ≡ io.event_id)
        × (n ≡ length ids)
        × ((payload : Bytes) × (headers : JsonValue M) × EncodesTo p json outbox io ctx e event tx
              payload
            × (tx'.db.events
                ≡ event_row p json outbox io ctx e event payload headers ∷ tx.db.events))
        × (tx'.db.deliveries
            ≡ tx.db.deliveries ++ fan_out io.now io.event_id tx.db.next_delivery_id ids)
        × (p.push_batch pgwq_queue (map (envelope_for outbox.registry io.event_id) ids) tx.jobs
            ≡ (ok tt, tx'.jobs))
  dispatch_writes id n h =
      let ids = handler_ids p json outbox io ctx e event tx in
      let (payload, encodes, within, handlers) = dispatch-eq-ok p json outbox io ctx e event tx h in
      let accepted =
        dispatch_accepted p json outbox io ctx e event tx payload within encodes handlers in
      let runs =
        accepted ∙ (reserved_then_wrote payload ids (ap (λ r. r.0) (sym accepted) ∙ h)).1 in
      let t = (reserve p json outbox io ctx e event tx).1 in
      let wrote = ap (λ r. r.0) (sym runs) ∙ h in
      let (same_id, same_n, _, _) =
        write_event-eq-ok p json outbox io ctx e event t payload ids wrote in
      let ((headers, events), deliveries, pushed, _, _) =
        write_event_writes p json outbox io ctx e event t payload ids wrote in
      let (es, ds, next, js) = reserve_keeps p json outbox io ctx e event tx in
      let row = event_row p json outbox io ctx e event payload headers in
      let rows = fan_out io.now io.event_id in
      (
        same_id,
        same_n,
        (payload, headers, encodes, ap (λ r. r.1.db.events) runs ∙ events ∙ ap (λ x. row ∷ x) es),
        ap (λ r. r.1.db.deliveries) runs
            ∙ deliveries
            ∙ ap (λ x. x ++ rows t.db.next_delivery_id ids) ds
            ∙ ap (λ x. tx.db.deliveries ++ rows x ids) next,
        ap (p.push_batch pgwq_queue (map (envelope_for outbox.registry io.event_id) ids)) (sym js)
            ∙ pushed
            ∙ ap (λ r. (ok tt, r.1.jobs)) (sym runs),
      )
