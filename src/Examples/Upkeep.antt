-- ===== src/Examples/Upkeep.antt =====
-- The shop's upkeep: old rows are purged, the order is looked up, and the worker is shut down.
use rust_events.Base.{
  ℕ, ◌+◌, ◌≤◌, ◌≡◌, refl, Bool, Option, none, some, List, [], ◌∷◌, str, ok, ◌==◌, ◌&&◌, ltb,
  if◌then◌else◌, ◌-◌, max, count_where, HasKey, IsOrdered, arith,
}
use rust_events.Util.{database}
use rust_events.Handler.{ms}
use rust_events.Schema.{Db, EventRow, Delivery, DispatchKey, Wire, reply, lost_after}
use rust_events.Schema.Status.{sent}
use rust_events.Purge.Statements.{is_old_delivery, same_delivery, is_done_event}
use rust_events.Purge.Rows.{without_old_deliveries, purge_terminal_deliveries_total}
use rust_events.Purge.Total.{
  HasReferences, without_done_events, remaining_events, purge_events_total,
}
use rust_events.Purge.Safety.{pending, purge_events_keeps_pending, purge_events_order}
use rust_events.Purge.{Chrono, finished, cutoff_from, purge_terminal_deliveries, purge_events}
use rust_events.Handle.{ShutdownIo, count_budget, shutdown}
use rust_events.Handle.Drain.{unsettled, shutdown_keeps_stats}
use rust_events.History.{
  EventRecord, HandlerDeliveryRecord, delivery_record, str_le, event, handler_deliveries_for,
}
use rust_events.History.Sorted.{handler_deliveries_for_lem}
use rust_events.History.Views.{dispatched_event_shown}
use rust_events.Examples.{
  order_row, mail_delivery, order_created, shop, pusher, json, dispatch_io, order_ctx, transaction,
}
use rust_events.Examples.Producer.{first_dispatch, first_dispatch_went}

abbrev time_before : ℕ → ℕ → Option ℕ
time_before now d = if ltb now d then none else some (now - d)

-- A calendar that begins at 0.
abbrev chrono : Chrono
chrono = record { from_std = λ d. some d; max = 1000; sub = time_before }

-- An order whose mail was sent at 5, with its key, beside order 2, whose mail is queued.
abbrev old_row : EventRow ℕ
old_row = record order_row { id = 6; created_at = 2 }

abbrev sent_delivery : Delivery
sent_delivery = record mail_delivery {
  id = 2;
  event_id = 6;
  status = sent;
  attempts = 1;
  first_attempted_at = some 4;
  last_attempted_at = some 4;
  finished_at = some 5;
}

abbrev old_key : DispatchKey
old_key = record {
  tenant_id = str "acme";
  idempotency_key = str "order:1";
  event_id = 6;
  created_at = 2;
}

abbrev old_tables : Db ℕ
old_tables = record {
  events = order_row ∷ old_row ∷ [];
  dispatch_keys = old_key ∷ [];
  deliveries = mail_delivery ∷ sent_delivery ∷ [];
  next_delivery_id = 3;
}

deliveries-HasKey : HasKey same_delivery old_tables.deliveries
deliveries-HasKey = (
  (λ _. refl, (λ h. absurd (ground (arith, h)), tt)),
  ((λ h. absurd (ground (arith, h)), (λ _. refl, tt)), tt),
)

old-HasReferences : HasReferences old_tables
old-HasReferences = record {
  key = (
    (λ _. refl, (λ h. absurd (ground (arith, h)), tt)),
    ((λ h. absurd (ground (arith, h)), (λ _. refl, tt)), tt),
  );
  deliveries_refer = (refl, (refl, tt));
  keys_refer = (refl, tt);
}

cutoff_is_90 : cutoff_from chrono 100 10 ≡ some 90
unfolding cutoff_from
cutoff_is_90 = refl

one_old_delivery : count_where (is_old_delivery 90) old_tables.deliveries ≡ 1
unfolding is_old_delivery
one_old_delivery = refl

one_done_event : remaining_events 90 old_tables ≡ 1
unfolding is_done_event
one_done_event = refl

purge_terminal_deliveries_total_example :
    purge_terminal_deliveries chrono 2 (λ _. reply) 100 10 old_tables ≡ (
      finished (ok (count_where (is_old_delivery 90) old_tables.deliveries)),
      without_old_deliveries 90 old_tables,
    )
purge_terminal_deliveries_total_example =
    purge_terminal_deliveries_total chrono 2 100 10 90 old_tables cutoff_is_90 deliveries-HasKey
      (omega (arith, one_old_delivery))

purge_events_total_example :
    purge_events chrono 2 (λ _. reply) 100 10 old_tables
    ≡ (finished (ok (remaining_events 90 old_tables)), without_done_events 90 old_tables)
purge_events_total_example =
    purge_events_total chrono 2 100 10 90 old_tables cutoff_is_90 old-HasReferences
      (omega (arith, one_done_event))

-- The answer of each turn is lost.
abbrev lossy : ℕ → Wire
lossy fuel = lost_after (database none (str "closed"))

purge_events_keeps_pending_example :
    let db' = (purge_events chrono 2 lossy 100 10 old_tables).1 in
    (pending db'.deliveries ≡ pending old_tables.deliveries) × HasReferences db'
purge_events_keeps_pending_example =
    purge_events_keeps_pending chrono 2 lossy 100 10 old_tables old-HasReferences

purge_events_order_example :
    let first = (purge_terminal_deliveries chrono 2 (λ _. reply) 100 10 old_tables).1 in
    (purge_events chrono 3 (λ _. reply) 100 10 first).1.events
    ≡ (purge_events chrono 3 (λ _. reply) 100 10 old_tables).1.events
purge_events_order_example =
    purge_events_order chrono 2 100 10 90 3 100 10 90 old_tables cutoff_is_90 cutoff_is_90
      deliveries-HasKey old-HasReferences (omega (arith, one_old_delivery)) (omega arith)

abbrev shutdown_io : ShutdownIo ℕ (Unit {0})
shutdown_io = record { drained = ok 12; elapsed = ms 40; count_wire = reply; count_duration = ms 3 }

shutdown_keeps_stats_example :
    (n : ℕ) × (shutdown shutdown_io (ms 1000) old_tables
      ≡ ok (12, record { pending_deliveries = n }))
    × (n ≤ unsettled shutdown_io (ms 1000) old_tables)
    × (shutdown_io.count_wire ≡ reply
        → shutdown_io.count_duration ≤ count_budget (ms 1000) shutdown_io.elapsed
        → n ≡ unsettled shutdown_io (ms 1000) old_tables)
    × (ms 500 ≤ count_budget (ms 1000) shutdown_io.elapsed)
    × (shutdown_io.elapsed + count_budget (ms 1000) shutdown_io.elapsed
        ≤ max (ms 1000) (shutdown_io.elapsed + ms 500))
shutdown_keeps_stats_example = shutdown_keeps_stats shutdown_io (ms 1000) old_tables 12 refl

dispatched_event_shown_example :
    let db' = first_dispatch.1.db in
    (r : EventRecord ℕ) × (event json.empty reply 7 db' ≡ (ok (some r), db'))
    × (r.id ≡ 7)
    × (r.event_type ≡ order_created.event_type)
    × (r.aggregate_key ≡ order_created.aggregate_key 2)
    × (order_created.to_vec 2 ≡ ok r.payload)
    × (r.tenant_id ≡ order_ctx.tenant_id)
    × (r.producer_bc ≡ order_ctx.producer_bc)
    × (r.created_at ≡ 1)
dispatched_event_shown_example =
    dispatched_event_shown pusher json shop (dispatch_io 7) order_ctx order_created 2 transaction 7
      1 first_dispatch_went

handler_deliveries_for_lem_example :
    (records : List HandlerDeliveryRecord) × (handler_deliveries_for reply 6 old_tables
      ≡ (ok records, old_tables))
    × IsOrdered (λ r s. str_le r.handler_id s.handler_id) records
    × ((f : HandlerDeliveryRecord → Bool)
        → count_where f records
          ≡ count_where (λ d. d.event_id == 6 && f (delivery_record d)) old_tables.deliveries)
handler_deliveries_for_lem_example = handler_deliveries_for_lem 6 old_tables
