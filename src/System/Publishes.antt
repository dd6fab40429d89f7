-- ===== src/System/Publishes.antt =====
-- The delivery rows that a transaction commits: those that were there, and queued ones at the end.
use rust_events.Base.{
  ℕ, suc, ◌≡◌, ◌⊎◌, refl, sym, subst, ap, ◌∙◌, inl, inr, Bool, true, false, ◌&&◌, List, [], ◌∷◌,
  ◌++◌, Str, str_eq_iff, All, All-append, any, any-append, AreDistinct, Keeps, arith,
}
use mathlib.Core.List.{append_assoc, append-nil}
use rust_events.Util.{JsonValue}
use rust_events.Builder.{Outbox}
use rust_events.Schema.{Db, EventRow, Delivery, is_delivery}
use rust_events.Schema.Status.{is_active, is_terminal, is_queued}
use rust_events.Dispatch.Transaction.{
  Pusher, Json, Tx, reserve_key, insert_event, insert_event_and_deliveries, fan_out,
}
use rust_events.Dispatch.Effects.{insert_deliveries_cases}
use rust_events.System.{Transacts}
use rust_events.System.Sound.{same_row}
use rust_events.System.Dispatches.{Transacts_keep}
use rust_events.System.Phases.{absent, due, is_due, is_closed, phase_of, is_due_or_closed}

-- `ds` and further rows that are queued.
abbrev pub AddsQueued : List Delivery → List Delivery → Type 0
AddsQueued ds es = (rs : List Delivery) × (es ≡ ds ++ rs) × All (λ d. is_queued d.status ≡ true) rs

fan_out-queued :
    (now event_id next : ℕ) (hs : List Str)
    → All (λ d. is_queued d.status ≡ true) (fan_out now event_id next hs)
fan_out-queued now event_id next [] = tt
fan_out-queued now event_id next (h ∷ hs) = (refl, fan_out-queued now event_id (suc next) hs)

module _ {M : Type 0} (ds : List Delivery) where
  abbrev Adds : Db M → Type 0
  Adds db = AddsQueued ds db.deliveries

  insert_event_and_deliveries_rows :
      (octets : JsonValue M → ℕ) (row : EventRow M) (ids : List Str) (db : Db M)
      → let es = (insert_event_and_deliveries octets row ids db).1.deliveries in
        (es ≡ db.deliveries)
        ⊎ (es ≡ db.deliveries ++ fan_out row.created_at row.id db.next_delivery_id ids)
  unfolding insert_event_and_deliveries insert_event
  insert_event_and_deliveries_rows octets row ids db = ground (
    arith,
    insert_deliveries_cases (fan_out row.created_at row.id db.next_delivery_id ids) db.deliveries,
  )

  insert_event_and_deliveries-Adds :
      (octets : JsonValue M → ℕ) (row : EventRow M) (ids : List Str)
      → Keeps Adds (insert_event_and_deliveries octets row ids)
  insert_event_and_deliveries-Adds octets row ids db (rs, same, queued) =
      let new = fan_out row.created_at row.id db.next_delivery_id ids in
      elim (insert_event_and_deliveries_rows octets row ids db) [
        | inl kept ↦ (rs, kept ∙ same, queued)
        | inr more ↦ (
          rs ++ new,
          more ∙ ap (λ xs. xs ++ new) same ∙ append_assoc ds rs new,
          All-append (λ d. is_queued d.status ≡ true) rs new queued
              (fan_out-queued row.created_at row.id db.next_delivery_id ids),
        )
      ]

  insert_event-Adds :
      (octets : JsonValue M → ℕ) (row : EventRow M) → Keeps Adds (insert_event octets row)
  unfolding insert_event
  insert_event-Adds octets row db h = ground (arith, h)

  reserve_key-Adds :
      (now : ℕ) (tenant key : Str) (id : ℕ) → Keeps Adds (reserve_key now tenant key id)
  unfolding reserve_key
  reserve_key-Adds now tenant key id db h = ground (arith, h)

module _ (event_id : ℕ) (handler_id : Str) where
  abbrev this : Delivery → Bool
  this = is_delivery event_id handler_id

  queued_due :
      (rs : List Delivery)
      → All (λ d. is_queued d.status ≡ true) rs
      → (is_due event_id handler_id rs ≡ any this rs) × (is_closed event_id handler_id rs ≡ false)
  queued_due [] q = (refl, refl)
  queued_due (r ∷ rs) q = ground (arith, q.0, queued_due rs q.1)

  -- The rows at the end are other deliveries.
  any_at_the_end :
      (ds rs : List Delivery)
      → AreDistinct same_row (ds ++ rs)
      → any this ds ≡ true
      → any this rs ≡ false
  any_at_the_end [] rs distinct h = absurd (ground (arith, h))
  any_at_the_end (d ∷ ds) rs distinct h = ground (
    arith,
    h,
    distinct.0,
    any-append (same_row d) ds rs,
    any-same d rs,
    any_at_the_end ds rs distinct.1,
  )
    where
      any-same :
          (d : Delivery) (rs : List Delivery) → this d ≡ true → any (same_row d) rs ≡ any this rs
      any-same d [] e = refl
      any-same d (r ∷ rs) e = ground (arith, e, any-same d rs, str_eq_iff d.handler_id handler_id)

  pub AddsQueued-phase_of :
      (ds es : List Delivery)
      → AddsQueued ds es
      → AreDistinct same_row es
      → (phase_of event_id handler_id es ≡ phase_of event_id handler_id ds)
        ⊎ ((phase_of event_id handler_id ds ≡ absent) × (phase_of event_id handler_id es ≡ due))
  AddsQueued-phase_of ds es (rs, same, queued) distinct =
      let apart = any_at_the_end ds rs (subst (AreDistinct same_row) same distinct) in
      rw same (
        ground (
          arith,
          apart,
          queued_due rs queued,
          is_due_or_closed event_id handler_id ds,
          any-append (λ d. this d && is_active d.status) ds rs,
          any-append (λ d. this d && is_terminal d.status) ds rs,
        ))

module _ {B M : Type 0} (p : Pusher) (json : Json M) (outbox : Outbox B M) where
  pub Transacts-AddsQueued :
      (now : ℕ) (tx tx' : Tx M p.Jobs)
      → Transacts p json outbox now tx tx'
      → AddsQueued tx.db.deliveries tx'.db.deliveries
  Transacts-AddsQueued now tx tx' runs =
      let ds = tx.db.deliveries in
      Transacts_keep p json outbox (Adds ds) now (reserve_key-Adds ds now)
        (insert_event-Adds ds json.octets)
        (λ row ids _. insert_event_and_deliveries-Adds ds json.octets row ids) tx tx' runs
        ([], sym (append-nil ds), tt)
