-- ===== src/Examples/Producer.antt =====
-- The producer's theorems at the dispatch of order 2.
use rust_events.Base.{ℕ, ◌≡◌, ◌⊎◌, false, refl, [], ◌∷◌, map, str, Result, ok, err, length, arith}
use rust_events.Util.{JsonValue}
use rust_events.Handler.{DomainEvent, Bytes}
use rust_events.Registry.{handler_ids_for}
use rust_events.Schema.{over, events_check, dispatch_keys_check, deliveries_check}
use rust_events.Dispatch.Errors.{DispatchError, DispatchOutcome, dispatched, duplicate, pgwq_push}
use rust_events.Dispatch.Transaction.{
  Pusher, Tx, statement, reserve_key, has_nul, insert_event, insert_deliveries,
  insert_event_and_deliveries, fan_out,
}
use rust_events.Dispatch.Steps.{IsWithinLimits}
use rust_events.Dispatch.Rejection.{EncodesTo, HasHandlers, dispatch_rejects}
use rust_events.Dispatch.Writes.{dispatch_writes}
use rust_events.Dispatch.Idempotency.{dispatch_once}
use rust_events.Dispatch.{
  pgwq_queue, envelope_for, event_row, check_key, validate, encode_payload, reserve, encode_headers,
  insert_rows, push_jobs, write_event, after_reserve, dispatch,
}
use rust_events.System.{KeysRefer}
use rust_events.System.Failures.{failed_dispatch_leaves_nothing}
use rust_events.Examples.{order_created, shop, pusher, json, dispatch_io, order_ctx, transaction}

-- The first dispatch, and the transaction it leaves.
abbrev pub first_dispatch : Result DispatchOutcome (DispatchError (Unit {0})) × Tx ℕ pusher.Jobs
first_dispatch = dispatch pusher json shop (dispatch_io 7) order_ctx order_created 2 transaction

pub first_dispatch_went : first_dispatch.0 ≡ ok (dispatched 7 1)
unfolding dispatch validate check_key encode_payload handler_ids_for reserve reserve_key has_nul
    statement over after_reserve write_event encode_headers insert_rows push_jobs
    insert_event_and_deliveries insert_event insert_deliveries events_check dispatch_keys_check
    deliveries_check
first_dispatch_went = refl

dispatch_writes_example :
    let tx' = first_dispatch.1 in
    (◌≡◌ {A = ℕ} 7 7)
    × (◌≡◌ {A = ℕ} 1 (length (handler_ids_for shop.registry (str "order.created"))))
    × ((payload : Bytes) × (headers : JsonValue ℕ) × EncodesTo pusher json shop
          (dispatch_io 7)
          order_ctx
          order_created
          2
          transaction
          payload
        × (tx'.db.events
            ≡ event_row pusher json shop (dispatch_io 7) order_ctx order_created 2 payload headers
              ∷ []))
    × (tx'.db.deliveries ≡ fan_out 1 7 1 (handler_ids_for shop.registry (str "order.created")))
    × (pusher.push_batch pgwq_queue
          (map (envelope_for shop.registry 7) (handler_ids_for shop.registry (str "order.created")))
          []
        ≡ (ok tt, tx'.jobs))
dispatch_writes_example =
    dispatch_writes pusher json shop (dispatch_io 7) order_ctx order_created 2 transaction 7 1
      first_dispatch_went

shop_has_handlers :
    HasHandlers pusher json shop (dispatch_io 8) order_ctx order_created 3 first_dispatch.1
unfolding handler_ids_for
shop_has_handlers = refl

dispatch_once_example :
    dispatch pusher json shop (dispatch_io 8) order_ctx order_created 3 first_dispatch.1
    ≡ (ok (duplicate 7), first_dispatch.1)
dispatch_once_example =
    dispatch_once pusher json shop (dispatch_io 7) (dispatch_io 8) order_ctx order_ctx order_created
      order_created 2 3 transaction (str "order:2") (3 ∷ []) 7 1 refl first_dispatch_went refl refl
      (omega arith, omega arith, omega arith, omega arith, (omega arith, omega arith), tt)
      (refl, omega arith) shop_has_handlers refl

-- An event type that no handler is registered for.
abbrev order_paid : DomainEvent
order_paid = record order_created { event_type = str "order.paid" }

nobody_for_order_paid : ¬ (
    ((payload : Bytes) × EncodesTo pusher json shop
        (dispatch_io 7)
        order_ctx
        order_paid
        2
        transaction
        payload)
    × IsWithinLimits pusher json shop (dispatch_io 7) order_ctx order_paid 2 transaction
    × HasHandlers pusher json shop (dispatch_io 7) order_ctx order_paid 2 transaction)
unfolding handler_ids_for
nobody_for_order_paid (_, _, h) = absurd (ground (arith, h))

dispatch_rejects_example :
    (x : DispatchError (Unit {0})) × (dispatch pusher json shop
        (dispatch_io 7)
        order_ctx
        order_paid
        2
        transaction
      ≡ (err x, transaction))
dispatch_rejects_example =
    dispatch_rejects pusher json shop (dispatch_io 7) order_ctx order_paid 2 transaction
      nobody_for_order_paid

-- The queue does not take the jobs.
abbrev full_queue : Pusher
full_queue = record pusher { push_batch = λ queue jobs old. (err tt, old) }

abbrev unqueued : Result DispatchOutcome (DispatchError (Unit {0})) × Tx ℕ full_queue.Jobs
unqueued = dispatch full_queue json shop (dispatch_io 7) order_ctx order_created 2 transaction

unqueued_can_commit :
    (unqueued.0 ≡ err (pgwq_push tt)) × (unqueued.1.aborted ≡ false) × KeysRefer unqueued.1.db
unfolding dispatch validate check_key encode_payload handler_ids_for reserve reserve_key has_nul
    statement over after_reserve write_event encode_headers insert_rows push_jobs
    insert_event_and_deliveries insert_event insert_deliveries events_check dispatch_keys_check
    deliveries_check
unqueued_can_commit = (refl, refl, (refl, tt))

failed_dispatch_leaves_nothing_example :
    (unqueued.1 ≡ transaction)
    ⊎ ((q : Unit {0}) × (◌≡◌ {A = DispatchError (Unit {0})} (pgwq_push tt) (pgwq_push q)))
failed_dispatch_leaves_nothing_example =
    failed_dispatch_leaves_nothing full_queue json shop (dispatch_io 7) order_ctx order_created 2
      transaction (pgwq_push tt) refl unqueued_can_commit.0 unqueued_can_commit.1
      unqueued_can_commit.2
