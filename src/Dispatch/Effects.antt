-- ===== src/Dispatch/Effects.antt =====
-- What a dispatch that went through has written.
use rust_events.Base.{
  ℕ, ◌+◌, ◌≡◌, ◌⊎◌, ◌∙◌, sym, ap, false, inl, inr, List, [], ◌∷◌, ◌++◌, map, Str, ok, err, pure,
  ◌>>◌, Result-cases, Bool-cases, is_empty, length, arith,
}
use mathlib.Core.List.{append_assoc, append-nil}
use rust_events.Util.{SqlxError, JsonValue}
use rust_events.Handler.{DomainEvent, Bytes}
use rust_events.Builder.{Outbox}
use rust_events.Schema.{Db, EventRow, Delivery, over}
use rust_events.Dispatch.Context.{DispatchContext}
use rust_events.Dispatch.Errors.{DispatchOutcome, dispatched}
use rust_events.Dispatch.Transaction.{
  Pusher, Json, Tx, statement, reserve_key, insert_event, insert_deliveries,
  insert_event_and_deliveries, fan_out,
}
use rust_events.Dispatch.Steps.{statement-eq-ok, encode_headers_state}
use rust_events.Dispatch.{
  DispatchIo, pgwq_queue, envelope_for, event_row, encode_headers, reserve, insert_rows, push_jobs,
  write_event,
}

-- The statement adds its rows at the end, or fails.
pub insert_deliveries_cases :
    (rs ds : List Delivery)
    → (insert_deliveries rs ds ≡ ok (ds ++ rs))
      ⊎ ((x : SqlxError) × (insert_deliveries rs ds ≡ err x))
unfolding insert_deliveries
insert_deliveries_cases [] ds = inl (ground (arith, append-nil ds))
insert_deliveries_cases (r ∷ rs) ds = ground (
  arith,
  insert_deliveries_cases rs (ds ++ r ∷ []),
  append_assoc ds (r ∷ []) rs,
  append_assoc ds [] rs,
)

module _ {M : Type 0} (octets : JsonValue M → ℕ) (row : EventRow M) (ids : List Str)
    (db : Db M) where
  insert_event-eq-ok :
      (insert_event octets row db).0 ≡ ok tt
      → (insert_event octets row db).1 ≡ record db { events = row ∷ db.events }
  unfolding insert_event
  insert_event-eq-ok h = ground arith

  insert_event_and_deliveries-eq-ok :
      (insert_event_and_deliveries octets row ids db).0 ≡ ok tt
      → (insert_event_and_deliveries octets row ids db).1 ≡ record db {
        events = row ∷ db.events;
        deliveries = db.deliveries ++ fan_out row.created_at row.id db.next_delivery_id ids;
        next_delivery_id = db.next_delivery_id + length ids;
      }
  unfolding insert_event_and_deliveries insert_event
  insert_event_and_deliveries-eq-ok h = ground (
    arith,
    insert_deliveries_cases (fan_out row.created_at row.id db.next_delivery_id ids) db.deliveries,
  )

module _ {B M : Type 0} (p : Pusher) (json : Json M) (outbox : Outbox B M) (io : DispatchIo)
    (ctx : DispatchContext M) (e : DomainEvent) (event : e.Event) (tx : Tx M p.Jobs) where
  -- The key's reservation touches the keys alone.
  pub reserve_keeps :
      let tx' = (reserve p json outbox io ctx e event tx).1 in
      (tx'.db.events ≡ tx.db.events)
      × (tx'.db.deliveries ≡ tx.db.deliveries)
      × (tx'.db.next_delivery_id ≡ tx.db.next_delivery_id)
      × (tx'.jobs ≡ tx.jobs)
  unfolding reserve reserve_key statement over
  reserve_keeps = ground arith

  insert_rows-eq-ok :
      (payload : Bytes) (text : Str) (ids : List Str)
      → is_empty ids ≡ false
      → (insert_rows p json outbox io ctx e event payload text ids tx.db).0 ≡ ok tt
      → (headers : JsonValue M) × (json.jsonb_in text ≡ ok headers)
        × ((insert_rows p json outbox io ctx e event payload text ids tx.db).1 ≡ record tx.db {
          events = event_row p json outbox io ctx e event payload headers ∷ tx.db.events;
          deliveries = tx.db.deliveries ++ fan_out io.now io.event_id tx.db.next_delivery_id ids;
          next_delivery_id = tx.db.next_delivery_id + length ids;
        })
  unfolding insert_rows
  insert_rows-eq-ok payload text ids some_id h = elim (Result-cases (json.jsonb_in text)) [
    | inr (x, j) ↦ absurd (ground arith)
    | inl (headers, j) ↦ (
      headers,
      j,
      ground (
        arith,
        insert_event_and_deliveries-eq-ok json.octets
            (event_row p json outbox io ctx e event payload headers) ids tx.db,
      ),
    )
  ]

  push_jobs-eq-ok :
      (ids : List Str) (t : Tx M p.Jobs) {a : DispatchOutcome}
      → ((push_jobs p json outbox io ctx e event ids >> pure a) t).0 ≡ ok a
      → let t' = ((push_jobs p json outbox io ctx e event ids >> pure a) t).1 in
        (t'.db ≡ t.db)
        × (t'.aborted ≡ t.aborted)
        × (p.push_batch pgwq_queue (map (envelope_for outbox.registry io.event_id) ids) t.jobs
            ≡ (ok tt, t'.jobs))
  unfolding push_jobs
  push_jobs-eq-ok ids t h = ground arith

  pub write_event-eq-ok :
      (payload : Bytes) (ids : List Str) {id n : ℕ}
      → (write_event p json outbox io ctx e event payload ids tx).0 ≡ ok (dispatched id n)
      → (id ≡ io.event_id)
        × (n ≡ length ids)
        × (is_empty ids ≡ false)
        × ((text : Str) × ((statement io.insert_wire
                (insert_rows p json outbox io ctx e event payload text ids)
                tx).0
              ≡ ok tt)
            × (write_event p json outbox io ctx e event payload ids tx
                ≡ (push_jobs p json outbox io ctx e event ids >> pure (dispatched id n))
                    (statement io.insert_wire
                      (insert_rows p json outbox io ctx e event payload text ids)
                      tx).1))
  unfolding write_event
  write_event-eq-ok payload ids {id} {n} h =
      let same = encode_headers_state p json outbox io ctx e event tx in
      elim (Result-cases (encode_headers p json outbox io ctx e event tx).0) [
        | inr (x, c) ↦ absurd (ground arith)
        | inl (text, c) ↦
            elim (Result-cases
              (statement io.insert_wire (insert_rows p json outbox io ctx e event payload text ids)
                tx).0) [
                  | inr (x, w) ↦ absurd (ground (arith, same))
                  | inl (_, w) ↦ elim (Bool-cases (is_empty ids)) [
                    | inl none_left ↦ absurd (ground (arith, same))
                    | inr some_left ↦ (
                      ground (arith, same),
                      ground (arith, same),
                      some_left,
                      (text, w, ground (arith, same)),
                    )
                  ]
                ]
      ]

  -- From the key's reservation on.
  abbrev pub Wrote : Bytes → List Str → Tx M p.Jobs → Type 0
  Wrote payload ids tx' =
      ((headers : JsonValue M) × (tx'.db.events
          ≡ event_row p json outbox io ctx e event payload headers ∷ tx.db.events))
      × (tx'.db.deliveries
          ≡ tx.db.deliveries ++ fan_out io.now io.event_id tx.db.next_delivery_id ids)
      × (p.push_batch pgwq_queue (map (envelope_for outbox.registry io.event_id) ids) tx.jobs
          ≡ (ok tt, tx'.jobs))
      × (tx'.db.dispatch_keys ≡ tx.db.dispatch_keys)
      × (tx'.aborted ≡ false)

  Wrote-of :
      (payload : Bytes) (headers : JsonValue M) (ids : List Str) (db : Db M) (t t' : Tx M p.Jobs)
      → db ≡ record tx.db {
        events = event_row p json outbox io ctx e event payload headers ∷ tx.db.events;
        deliveries = tx.db.deliveries ++ fan_out io.now io.event_id tx.db.next_delivery_id ids;
        next_delivery_id = tx.db.next_delivery_id + length ids;
      }
      → t ≡ record tx { db = db }
      → tx.aborted ≡ false
      → t'.db ≡ t.db
      → t'.aborted ≡ t.aborted
      → p.push_batch pgwq_queue (map (envelope_for outbox.registry io.event_id) ids) t.jobs
        ≡ (ok tt, t'.jobs)
      → Wrote payload ids t'
  Wrote-of payload headers ids db t t' rows at live kept on pushed = (
    (headers, ground (arith, rows, at, kept)),
    ground (arith, rows, at, kept),
    ground (arith, rows, at, kept, pushed),
    ground (arith, rows, at, kept),
    ground (arith, at, live, on),
  )

  pub write_event_writes :
      (payload : Bytes) (ids : List Str) {id n : ℕ}
      → (write_event p json outbox io ctx e event payload ids tx).0 ≡ ok (dispatched id n)
      → Wrote payload ids (write_event p json outbox io ctx e event payload ids tx).1
  write_event_writes payload ids {id} {n} h =
      let (_, _, some_left, (text, written, runs)) = write_event-eq-ok payload ids h in
      let insert = insert_rows p json outbox io ctx e event payload text ids in
      let t = (statement io.insert_wire insert tx).1 in
      let (inserted, at, _, live) = statement-eq-ok io.insert_wire insert tx written in
      let (headers, _, rows) = insert_rows-eq-ok payload text ids some_left inserted in
      let (kept, on, pushed) =
        push_jobs-eq-ok ids t {a = dispatched id n} (ap (λ r. r.0) (sym runs) ∙ h) in
      let t' = (write_event p json outbox io ctx e event payload ids tx).1 in
      Wrote-of payload headers ids (insert tx.db).1 t t' rows (ap (λ r. r.1) at) live
        (ap (λ r. r.1.db) runs ∙ kept) (ap (λ r. r.1.aborted) runs ∙ on)
        (pushed ∙ ap (λ r. (ok tt, r.1.jobs)) (sym runs))
