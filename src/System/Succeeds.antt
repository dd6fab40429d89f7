-- ===== src/System/Succeeds.antt =====
-- When a dispatch succeeds.
use rust_events.Base.{
  ℕ, ◌≡◌, ◌≤◌, ap, ◌∙◌, false, none, List, ◌∷◌, ◌++◌, map, Str, len, ok, any, is_empty, get_or,
  length, ◌==◌, ◌>>=◌, >>=-ok, arith,
}
use rust_events.Util.{object}
use rust_events.Handler.{DomainEvent, Bytes}
use rust_events.Registry.{handler_ids_for}
use rust_events.Builder.Config.{OutboxConfig}
use rust_events.Builder.Registration.{ids_for}
use rust_events.Builder.Built.{build_succeeds_iff, build_lookups}
use rust_events.Builder.{Outbox, OutboxBuilder, build}
use rust_events.Schema.{DispatchKey, Delivery, reply}
use rust_events.Dispatch.Context.{DispatchContext}
use rust_events.Dispatch.Errors.{dispatched}
use rust_events.Dispatch.Transaction.{
  Pusher, Json, Tx, insert_deliveries, fan_out, has_nul, text_of,
}
use rust_events.Dispatch.Steps.{IsWithinLimits}
use rust_events.Dispatch.Rejection.{EncodesTo, dispatch_accepted}
use rust_events.Dispatch.{
  DispatchIo, pgwq_queue, envelope_for, event_row, reserve, after_reserve, dispatch,
}
use rust_events.Purge.Statements.{has_id}
use rust_events.System.Sound.{IsWellFormed}
use rust_events.System.Handlers.{
  ids_for-All, ids_for-AreDistinct, none_refers, All-is_delivery, insert_deliveries_ok,
}
use rust_events.System.{KeysRefer}
use rust_events.System.Success.{
  IsFree, IsStorable, with_reserved, with_rows, reserve_succeeds, insert_rows_succeeds,
  write_event_succeeds, event_row-checked, reserved-KeysRefer, with_reserved_keeps,
}

module _ {B M : Type 0} (p : Pusher) (json : Json M) (outbox : Outbox B M) (io : DispatchIo)
    (ctx : DispatchContext M) (e : DomainEvent) (event : e.Event) where
  ids_fit :
      (fallback : OutboxConfig B) (b : OutboxBuilder B M) (now next : ℕ) (ds : List Delivery)
      → build fallback b ≡ ok outbox
      → any (λ d. d.event_id == io.event_id) ds ≡ false
      → insert_deliveries
          (fan_out io.now io.event_id next (handler_ids_for outbox.registry e.event_type))
          ds
        ≡ ok (ds ++ fan_out io.now io.event_id next (handler_ids_for outbox.registry e.event_type))
  ids_fit fallback b now next ds built none_yet =
      let ids = ids_for e.event_type b.pending in
      let (entries, new) = (build_succeeds_iff fallback b).0 (outbox, built) in
      rw (build_lookups fallback b e.event_type e.event_type built).1 (
        insert_deliveries_ok io.now io.event_id next ids ds
          (ids_for-All _ e.event_type b.pending entries)
          (ids_for-AreDistinct e.event_type b.pending new)
          (All-is_delivery io.event_id ids ds none_yet))

  -- A dispatch of an outbox that build has built succeeds, in a live transaction on well-formed
  -- tables, if the texts and the payload are within the limits, neither the texts nor the handler
  -- ids hold U+0000, some handler is registered for the event type, no event has the new id and
  -- none holds the idempotency key, the headers print, parse and fit, the server answers, and the
  -- queue takes the jobs. The transaction can then be committed.
  pub dispatch_succeeds :
      (fallback : OutboxConfig B) (b : OutboxBuilder B M) (now : ℕ) (tx : Tx M p.Jobs)
      (payload : Bytes) (text : Str) (m : M)
      → build fallback b ≡ ok outbox
      → IsWellFormed now tx.db
      → tx.aborted ≡ false
      → has_id tx.db.events io.event_id ≡ false
      → io.reserve_wire ≡ reply
      → io.insert_wire ≡ reply
      → IsWithinLimits p json outbox io ctx e event tx
      → EncodesTo p json outbox io ctx e event tx payload
      → is_empty (handler_ids_for outbox.registry e.event_type) ≡ false
      → has_nul (e.event_type ∷ ctx.producer_bc ∷ ctx.tenant_id ∷ text_of (e.aggregate_key event))
        ≡ false
      → IsStorable p json outbox io ctx e event ctx.idempotency_key
      → has_nul (handler_ids_for outbox.registry e.event_type) ≡ false
      → IsFree p json outbox io ctx e event ctx.idempotency_key tx.db
      → json.to_string (get_or ctx.headers json.empty) ≡ ok text
      → len text ≤ 16384
      → json.jsonb_in text ≡ ok (object m)
      → json.octets (object m) ≤ 16384
      → (p.push_batch pgwq_queue
          (map
            (envelope_for outbox.registry io.event_id)
            (handler_ids_for outbox.registry e.event_type))
          tx.jobs).0
        ≡ ok tt
      → (tx' : Tx M p.Jobs) × (dispatch p json outbox io ctx e event tx ≡ (
        ok (dispatched io.event_id (length (handler_ids_for outbox.registry e.event_type))),
        tx',
      ))
        × (tx'.aborted ≡ false)
        × KeysRefer tx'.db
  dispatch_succeeds fallback b now tx payload text m built w live fresh reserve_answered
        insert_answered within encodes some_id clean_event clean_key clean_ids free printed short
        parsed fits pushed =
      let ids = handler_ids_for outbox.registry e.event_type in
      let key = ctx.idempotency_key in
      let row = event_row p json outbox io ctx e event payload (object m) in
      let t = record tx { db = with_reserved p json outbox io ctx e event key tx.db } in
      let (es, ds, next) = with_reserved_keeps p json outbox io ctx e event key tx.db in
      let no_deliveries =
        none_refers (λ (d : Delivery). d.event_id) tx.db.events tx.db.deliveries io.event_id
          w.sound.deliveries.referring fresh in
      let no_keys =
        none_refers (λ (k : DispatchKey). k.event_id) tx.db.events tx.db.dispatch_keys io.event_id
          w.keys_referring fresh in
      let reserved =
        reserve_succeeds p json outbox io ctx e event tx live reserve_answered within clean_key free
          no_keys in
      let inserted =
        insert_rows_succeeds p json outbox io ctx e event payload text m ids t.db parsed some_id
          clean_event clean_ids
          (event_row-checked p json outbox io ctx e event payload m tx within encodes fits)
          (ap (λ xs. has_id xs io.event_id) es ∙ fresh)
          (ids_fit fallback b now t.db.next_delivery_id t.db.deliveries built
            (ap (any (λ d. d.event_id == io.event_id)) ds ∙ no_deliveries)) in
      let wrote =
        write_event_succeeds p json outbox io ctx e event payload text m ids t live insert_answered
          printed short some_id inserted pushed in
      let accepted =
        dispatch_accepted p json outbox io ctx e event tx payload within encodes
          (ground (arith, some_id)) in
      let left = record t {
        db = with_rows p json outbox io ctx e event row ids t.db;
        jobs =
            (p.push_batch pgwq_queue (map (envelope_for outbox.registry io.event_id) ids)
              tx.jobs).1;
      } in
      let goes_on : (reserve p json outbox io ctx e event
              >>= after_reserve p json outbox io ctx e event payload ids)
            tx
          ≡ (ok (dispatched io.event_id (length ids)), left) =
        >>=-ok (reserve p json outbox io ctx e event)
          (after_reserve p json outbox io ctx e event payload ids) tx t none reserved
        ∙ (unfold after_reserve in wrote) in
      (
        left,
        accepted ∙ goes_on,
        live,
        reserved-KeysRefer p json outbox io ctx e event tx.db payload m ids key w.keys_referring,
      )
