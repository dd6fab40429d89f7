-- ===== src/System/Success.antt =====
-- The steps of a dispatch that succeeds.
use rust_events.Base.{
  ◌+◌, ◌≡◌, ◌≤◌, refl, true, false, inl, inr, Option-cases, Option, none, some, List, [], ◌∷◌, ◌++◌,
  map, Str, len, ok, any, first, select_where, is_empty, get_or, length, All-mono, ◌==◌, arith,
}
use rust_events.Util.{object}
use rust_events.Handler.{DomainEvent, Bytes}
use rust_events.Builder.{Outbox}
use rust_events.Schema.{Db, EventRow, DispatchKey, reply, over, events_check, dispatch_keys_check}
use rust_events.Dispatch.Context.{DispatchContext}
use rust_events.Dispatch.Errors.{dispatched}
use rust_events.Dispatch.Transaction.{
  Pusher, Json, Tx, statement, is_key, reserve_key, insert_event, insert_event_and_deliveries,
  insert_deliveries, fan_out, has_nul, event_texts,
}
use rust_events.Dispatch.Steps.{IsWithinLimits}
use rust_events.Dispatch.Rejection.{EncodesTo}
use rust_events.Dispatch.{
  DispatchIo, pgwq_queue, envelope_for, event_row, reserve, encode_headers, insert_rows, push_jobs,
  write_event,
}
use rust_events.Purge.Statements.{has_id}
use rust_events.System.{KeysRefer}

module _ {B M : Type 0} (p : Pusher) (json : Json M) (outbox : Outbox B M) (io : DispatchIo)
    (ctx : DispatchContext M) (e : DomainEvent) (event : e.Event) where
  abbrev reserved_row : Str → DispatchKey
  reserved_row key = record {
    tenant_id = ctx.tenant_id;
    idempotency_key = key;
    event_id = io.event_id;
    created_at = io.now;
  }

  abbrev pub with_reserved : Option Str → Db M → Db M
  with_reserved none db = db
  with_reserved (some key) db = record db { dispatch_keys = reserved_row key ∷ db.dispatch_keys }

  -- Without U+0000, which the server does not store in a text.
  abbrev pub IsStorable : Option Str → Type 0
  IsStorable none = Unit
  IsStorable (some key) = has_nul (ctx.tenant_id ∷ key ∷ []) ≡ false

  -- No event holds the key.
  abbrev pub IsFree : Option Str → Db M → Type 0
  IsFree none db = Unit
  IsFree (some key) db = first (select_where (is_key ctx.tenant_id key) db.dispatch_keys) ≡ none

  pub reserve_succeeds :
      (tx : Tx M p.Jobs)
      → tx.aborted ≡ false
      → io.reserve_wire ≡ reply
      → IsWithinLimits p json outbox io ctx e event tx
      → IsStorable ctx.idempotency_key
      → IsFree ctx.idempotency_key tx.db
      → any (λ k. k.event_id == io.event_id) tx.db.dispatch_keys ≡ false
      → reserve p json outbox io ctx e event tx
        ≡ (ok none, record tx { db = with_reserved ctx.idempotency_key tx.db })
  unfolding reserve reserve_key statement over dispatch_keys_check
  reserve_succeeds tx live wire within clean free new = elim (Option-cases ctx.idempotency_key) [
    | inl none_given ↦ ground (arith, none_given)
    | inr (key, k) ↦ ground (arith, k, live, wire, within, clean, free, new)
  ]

  -- The tables after a successful insertion.
  abbrev pub with_rows : EventRow M → List Str → Db M → Db M
  with_rows row ids db = record db {
    events = row ∷ db.events;
    deliveries = db.deliveries ++ fan_out io.now io.event_id db.next_delivery_id ids;
    next_delivery_id = db.next_delivery_id + length ids;
  }

  pub insert_rows_succeeds :
      (payload : Bytes) (text : Str) (m : M) (ids : List Str) (db : Db M)
      → json.jsonb_in text ≡ ok (object m)
      → is_empty ids ≡ false
      → has_nul (event_texts (event_row p json outbox io ctx e event payload (object m))) ≡ false
      → has_nul ids ≡ false
      → events_check json.octets (event_row p json outbox io ctx e event payload (object m)) ≡ true
      → has_id db.events io.event_id ≡ false
      → insert_deliveries (fan_out io.now io.event_id db.next_delivery_id ids) db.deliveries
        ≡ ok (db.deliveries ++ fan_out io.now io.event_id db.next_delivery_id ids)
      → insert_rows p json outbox io ctx e event payload text ids db
        ≡ (ok tt, with_rows (event_row p json outbox io ctx e event payload (object m)) ids db)
  unfolding insert_rows insert_event_and_deliveries insert_event
  insert_rows_succeeds payload text m ids db j some_id clean storable check fresh fits =
      ground (arith, j, some_id, clean, storable, check, fresh, fits)

  pub write_event_succeeds :
      (payload : Bytes) (text : Str) (m : M) (ids : List Str) (tx : Tx M p.Jobs)
      → tx.aborted ≡ false
      → io.insert_wire ≡ reply
      → json.to_string (get_or ctx.headers json.empty) ≡ ok text
      → len text ≤ 16384
      → is_empty ids ≡ false
      → insert_rows p json outbox io ctx e event payload text ids tx.db
        ≡ (ok tt, with_rows (event_row p json outbox io ctx e event payload (object m)) ids tx.db)
      → (p.push_batch pgwq_queue (map (envelope_for outbox.registry io.event_id) ids) tx.jobs).0
        ≡ ok tt
      → write_event p json outbox io ctx e event payload ids tx ≡ (
        ok (dispatched io.event_id (length ids)),
        record tx {
          db = with_rows (event_row p json outbox io ctx e event payload (object m)) ids tx.db;
          jobs =
              (p.push_batch pgwq_queue
                (map (envelope_for outbox.registry io.event_id) ids)
                tx.jobs).1;
        },
      )
  unfolding write_event encode_headers push_jobs statement over
  write_event_succeeds payload text m ids tx live wire printed short some_id inserted pushed =
      ground (arith, live, wire, printed, short, some_id, inserted, pushed)

  pub event_row-checked :
      (payload : Bytes) (m : M) (tx : Tx M p.Jobs)
      → IsWithinLimits p json outbox io ctx e event tx
      → EncodesTo p json outbox io ctx e event tx payload
      → json.octets (object m) ≤ 16384
      → events_check json.octets (event_row p json outbox io ctx e event payload (object m)) ≡ true
  unfolding events_check
  event_row-checked payload m tx within encodes fits = elim (Option-cases (e.aggregate_key event)) [
    | inl none_given ↦ ground (arith, none_given, within, encodes, fits)
    | inr (key, k) ↦ ground (arith, k, within, encodes, fits)
  ]

  -- The keys of the tables that a dispatch leaves have their events.
  pub reserved-KeysRefer :
      (db : Db M) (payload : Bytes) (m : M) (ids : List Str) (key : Option Str)
      → KeysRefer db
      → KeysRefer (
          with_rows
            (event_row p json outbox io ctx e event payload (object m))
            ids
            (with_reserved key db))
  reserved-KeysRefer db payload m ids none refer =
      All-mono _ _ db.dispatch_keys (λ k h. ground (arith, h)) refer
  reserved-KeysRefer db payload m ids (some key) refer =
      (ground arith, All-mono _ _ db.dispatch_keys (λ k h. ground (arith, h)) refer)

  pub with_reserved_keeps :
      (key : Option Str) (db : Db M)
      → ((with_reserved key db).events ≡ db.events)
        × ((with_reserved key db).deliveries ≡ db.deliveries)
        × ((with_reserved key db).next_delivery_id ≡ db.next_delivery_id)
  with_reserved_keeps none db = (refl, refl, refl)
  with_reserved_keeps (some key) db = (refl, refl, refl)
