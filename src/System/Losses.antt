-- ===== src/System/Losses.antt =====
-- The delivery of a job, while nothing has settled it.
use rust_events.Base.{
  ℕ, ◌≡◌, ◌⊎◌, inl, inr, ap, ◌∙◌, Bool, true, ◌||◌, List, [], ◌∷◌, ◌++◌, Str, any, select_where,
  Keeps, arith,
}
use rust_events.Util.{JsonValue}
use rust_events.Builder.{Outbox}
use rust_events.Schema.{Db, EventRow, Delivery, is_delivery}
use rust_events.Schema.Status.{DeliveryStatus, is_active, is_terminal}
use rust_events.Dispatch.Transaction.{
  Pusher, Json, reserve_key, insert_event, insert_event_and_deliveries, fan_out,
}
use rust_events.Dispatch.Effects.{insert_deliveries_cases}
use rust_events.Runtime.{OutboxRuntime}
use rust_events.Runtime.Statements.{over_cases}
use rust_events.Purge.Statements.{delete_terminal_deliveries, delete_dispatch_keys, delete_events}
use rust_events.Purge.Safety.{pending, delete_events-pending, delete_terminal_deliveries-pending}
use rust_events.System.Sound.{IsWellFormed, IsSound-HasKey, IsWellFormed-HasReferences}
use rust_events.System.Dispatches.{Transacts_keep}
use rust_events.System.Workers.{Step-AllPersist_of, any-AllPersist}
use rust_events.System.Reachable.{SystemStep-IsWellFormed}
use rust_events.System.{
  SystemStep, SystemRuns, commits, works, purges_deliveries, purges_keys, purges_events, rests,
  steps,
}

-- The delivery of an event to a handler is still to be made, or is settled.
module _ {M : Type 0} (event_id : ℕ) (handler_id : Str) where
  abbrev pub IsPending : Db M → Type 0
  IsPending db = any (is_delivery event_id handler_id) (pending db.deliveries) ≡ true

  abbrev pub IsSettled : Db M → Type 0
  IsSettled db =
      any (is_delivery event_id handler_id) (select_where (λ d. is_terminal d.status) db.deliveries)
      ≡ true

module _ (f : Delivery → Bool) where
  any-pending-append :
      (ds rs : List Delivery) → any f (pending ds) ≡ true → any f (pending (ds ++ rs)) ≡ true
  any-pending-append [] rs h = absurd (ground (arith, h))
  any-pending-append (d ∷ ds) rs h = ground (arith, h, any-pending-append ds rs)

  -- A delivery is pending or settled.
  pub pending_or_settled :
      (ds : List Delivery)
      → any f ds ≡ true
      → (any f (pending ds) ≡ true) ⊎ (any f (select_where (λ d. is_terminal d.status) ds) ≡ true)
  pending_or_settled [] h = absurd (ground (arith, h))
  pending_or_settled (d ∷ ds) h =
      ground (arith, h, pending_or_settled ds, active_or_terminal d.status)
    where
      active_or_terminal : (s : DeliveryStatus) → (is_active s || is_terminal s) ≡ true
      active_or_terminal s = ground arith

  pub any_of_pending : (ds : List Delivery) → any f (pending ds) ≡ true → any f ds ≡ true
  any_of_pending [] h = h
  any_of_pending (d ∷ ds) h = ground (arith, h, any_of_pending ds)

module _ {M : Type 0} (event_id : ℕ) (handler_id : Str) where
  insert_event_and_deliveries-IsPending :
      (octets : JsonValue M → ℕ) (row : EventRow M) (ids : List Str)
      → Keeps (IsPending event_id handler_id) (insert_event_and_deliveries octets row ids)
  unfolding insert_event_and_deliveries insert_event
  insert_event_and_deliveries-IsPending octets row ids db h =
      let rs = fan_out row.created_at row.id db.next_delivery_id ids in
      ground (
        arith,
        h,
        insert_deliveries_cases rs db.deliveries,
        any-pending-append (is_delivery event_id handler_id) db.deliveries rs,
      )

  insert_event-IsPending :
      (octets : JsonValue M → ℕ) (row : EventRow M)
      → Keeps (IsPending event_id handler_id) (insert_event octets row)
  unfolding insert_event
  insert_event-IsPending octets row db h = ground (arith, h)

  reserve_key-IsPending :
      (now : ℕ) (tenant key : Str) (id : ℕ)
      → Keeps (IsPending {M = M} event_id handler_id) (reserve_key now tenant key id)
  unfolding reserve_key
  reserve_key-IsPending now tenant key id db h = ground (arith, h)

module _ {B M : Type 0} (p : Pusher) (json : Json M) (outbox : Outbox B M)
    (rt : OutboxRuntime B M) where
  -- At the end of some step of the run, or at its end.
  abbrev pub AtSome :
      (P : Db M → Type 0) {t u : ℕ} {db db' : Db M}
      → SystemRuns p json outbox rt t db u db'
      → Type 0
  AtSome P (rests _ db) = P db
  AtSome P (steps _ _ _ _ mid _ _ runs) = P mid ⊎ AtSome P runs

module _ {B M : Type 0} (p : Pusher) (json : Json M) (outbox : Outbox B M) (rt : OutboxRuntime B M)
    (event_id : ℕ) (handler_id : Str) where
  SystemStep-IsPending :
      (t u : ℕ) (db db' : Db M)
      → SystemStep p json outbox rt t db u db'
      → IsWellFormed t db
      → IsPending event_id handler_id db
      → IsPending event_id handler_id db' ⊎ IsSettled event_id handler_id db'
  SystemStep-IsPending t u db db' (commits _ now _ tx tx' runs le later live refer) w h = inl (
      Transacts_keep p json outbox (IsPending event_id handler_id) now
        (reserve_key-IsPending event_id handler_id now)
        (insert_event-IsPending event_id handler_id json.octets)
        (λ row ids _. insert_event_and_deliveries-IsPending event_id handler_id json.octets row ids)
        tx tx' runs h)
  SystemStep-IsPending t u db db' (works _ _ _ _ s) w h =
      let (_, k) = Step-AllPersist_of rt t u db db' s w.sound.deliveries.valid in
      let this = is_delivery event_id handler_id in
      pending_or_settled this db'.deliveries (
        any-AllPersist this this (λ d e m. ground (arith, m)) db.deliveries db'.deliveries k
        ∙ any_of_pending this db.deliveries h)
  SystemStep-IsPending t u db db' (purges_deliveries _ cutoff wire _) w h = inl (
      over_cases (IsPending event_id handler_id) wire (delete_terminal_deliveries cutoff) db h (
        ap (any (is_delivery event_id handler_id))
          (delete_terminal_deliveries-pending cutoff db (IsSound-HasKey db w.sound))
        ∙ h))
  SystemStep-IsPending t u db db' (purges_keys _ cutoff wire _) w h = inl (
      over_cases (IsPending event_id handler_id) wire (delete_dispatch_keys cutoff) db h
        (unfold delete_dispatch_keys in h))
  SystemStep-IsPending t u db db' (purges_events _ cutoff wire _) w h = inl (
      over_cases (IsPending event_id handler_id) wire (delete_events cutoff) db h (
        ap (any (is_delivery event_id handler_id))
          (delete_events-pending cutoff db (IsWellFormed-HasReferences db w))
        ∙ h))

  -- No delivery is lost: in well-formed tables, one that is queued, running or awaiting a retry is
  -- still so at the end of a run, whatever is dispatched, claimed, settled or purged on it, or it
  -- is sent, skipped or dead after some step of that run.
  pub no_delivery_lost :
      (t u : ℕ) (db db' : Db M) (runs : SystemRuns p json outbox rt t db u db')
      → IsWellFormed t db
      → IsPending event_id handler_id db
      → IsPending event_id handler_id db'
        ⊎ AtSome p json outbox rt (IsSettled event_id handler_id) runs
  no_delivery_lost t u db db' (rests _ _) w h = inl h
  no_delivery_lost t u db db' (steps _ v _ _ mid _ s runs) w h =
      elim (SystemStep-IsPending t v db mid s w h) [
        | inr settled ↦ inr (inl settled)
        | inl still ↦
            let wm = SystemStep-IsWellFormed p json outbox rt t v db mid s w in
            elim (no_delivery_lost v u mid db' runs wm still) [
              | inl to_the_end ↦ inl to_the_end
              | inr later ↦ inr (inr later)
            ]
      ]
