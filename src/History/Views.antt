-- ===== src/History/Views.antt =====
-- `History::event` after `Outbox::dispatch`.
use rust_events.Base.{ℕ, ◌≡◌, refl, sym, ap, ◌∙◌, some, List, ◌∷◌, ok, arith}
use rust_events.Handler.{DomainEvent}
use rust_events.Builder.{Outbox}
use rust_events.Schema.{Db, EventRow, reply, over}
use rust_events.Dispatch.Context.{DispatchContext}
use rust_events.Dispatch.Errors.{dispatched}
use rust_events.Dispatch.Transaction.{Pusher, Json, Tx}
use rust_events.Dispatch.{DispatchIo, event_row, dispatch}
use rust_events.Dispatch.Writes.{dispatch_writes}
use rust_events.History.{EventRecord, event_record, event}

event-cons :
    {M : Type 0} (empty_headers : M) (row : EventRow M) (es : List (EventRow M)) (db : Db M)
    → db.events ≡ row ∷ es
    → event empty_headers reply row.id db ≡ (ok (some (event_record empty_headers row)), db)
unfolding event over
event-cons empty_headers row es db h = ground (arith, h)

-- What a dispatch that returned `Dispatched` has written is what `History::event` shows under the
-- event's id: the type and the aggregate key of the event, its encoding, the context's tenant and
-- bounded context, and the transaction's time.
pub dispatched_event_shown :
    {B M : Type 0} (p : Pusher) (json : Json M) (outbox : Outbox B M) (io : DispatchIo)
    (ctx : DispatchContext M) (e : DomainEvent) (ev : e.Event) (tx : Tx M p.Jobs) (id n : ℕ)
    → (dispatch p json outbox io ctx e ev tx).0 ≡ ok (dispatched id n)
    → let db' = (dispatch p json outbox io ctx e ev tx).1.db in
      (r : EventRecord M) × (event json.empty reply id db' ≡ (ok (some r), db'))
      × (r.id ≡ id)
      × (r.event_type ≡ e.event_type)
      × (r.aggregate_key ≡ e.aggregate_key ev)
      × (e.to_vec ev ≡ ok r.payload)
      × (r.tenant_id ≡ ctx.tenant_id)
      × (r.producer_bc ≡ ctx.producer_bc)
      × (r.created_at ≡ io.now)
dispatched_event_shown p json outbox io ctx e ev tx id n h =
    let db' = (dispatch p json outbox io ctx e ev tx).1.db in
    let (same_id, _, (payload, headers, encodes, events), _, _) =
      dispatch_writes p json outbox io ctx e ev tx id n h in
    let row = event_row p json outbox io ctx e ev payload headers in
    (
      event_record json.empty row,
      ap (λ i. event json.empty reply i db') same_id
          ∙ event-cons json.empty row tx.db.events db' events,
      sym same_id,
      refl,
      refl,
      encodes.0,
      refl,
      refl,
      refl,
    )
