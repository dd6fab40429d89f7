-- ===== src/System/Purges.antt =====
-- The three DELETEs keep the tables well formed.
use rust_events.Base.{ℕ, Bool, List, All-delete_where, delete_where-AreDistinct, delete_where}
use rust_events.Schema.{Db, EventRow, Delivery, DispatchKey}
use rust_events.Purge.Statements.{
  delete_terminal_deliveries, delete_dispatch_keys, delete_events, same_event, same_key,
  same_delivery,
}
use rust_events.Purge.Cascade.{AreReferenced, cascade-AreReferenced}
use rust_events.System.Sound.{same_row, same_key_event, DeliveriesAreSound, IsWellFormed}

module _ {M : Type 0} where
  -- Fewer deliveries, of events that are still there.
  fewer_deliveries :
      (now next : ℕ) (es fs : List (EventRow M)) (p : Delivery → Bool) (ds : List Delivery)
      → DeliveriesAreSound now next es ds
      → AreReferenced (λ (d : Delivery). d.event_id) fs (delete_where p ds)
      → DeliveriesAreSound now next fs (delete_where p ds)
  fewer_deliveries now next es fs p ds s refer = record {
    valid = All-delete_where _ p ds s.valid;
    ids_below = All-delete_where _ p ds s.ids_below;
    ids_distinct = delete_where-AreDistinct same_delivery p ds s.ids_distinct;
    rows_distinct = delete_where-AreDistinct same_row p ds s.rows_distinct;
    referring = refer;
  }

  pub delete_terminal_deliveries-IsWellFormed :
      (now cutoff : ℕ) (db : Db M)
      → IsWellFormed now db
      → IsWellFormed now (delete_terminal_deliveries cutoff db).1
  unfolding delete_terminal_deliveries
  delete_terminal_deliveries-IsWellFormed now cutoff db w = record {
    sound = record {
      deliveries =
          fewer_deliveries now db.next_delivery_id db.events db.events _ db.deliveries
            w.sound.deliveries (All-delete_where _ _ db.deliveries w.sound.deliveries.referring);
      events_distinct = w.sound.events_distinct;
      keys_distinct = w.sound.keys_distinct;
      key_events_distinct = w.sound.key_events_distinct;
    };
    keys_referring = w.keys_referring;
  }

  pub delete_dispatch_keys-IsWellFormed :
      (now cutoff : ℕ) (db : Db M)
      → IsWellFormed now db
      → IsWellFormed now (delete_dispatch_keys cutoff db).1
  unfolding delete_dispatch_keys
  delete_dispatch_keys-IsWellFormed now cutoff db w = record {
    sound = record {
      deliveries = w.sound.deliveries;
      events_distinct = w.sound.events_distinct;
      keys_distinct = delete_where-AreDistinct same_key _ db.dispatch_keys w.sound.keys_distinct;
      key_events_distinct =
          delete_where-AreDistinct same_key_event _ db.dispatch_keys w.sound.key_events_distinct;
    };
    keys_referring = All-delete_where _ _ db.dispatch_keys w.keys_referring;
  }

  pub delete_events-IsWellFormed :
      (now cutoff : ℕ) (db : Db M)
      → IsWellFormed now db
      → IsWellFormed now (delete_events cutoff db).1
  unfolding delete_events
  delete_events-IsWellFormed now cutoff db w = record {
    sound = record {
      deliveries =
          fewer_deliveries now db.next_delivery_id db.events _ _ db.deliveries w.sound.deliveries (
            cascade-AreReferenced (λ (d : Delivery). d.event_id) _ db.events db.deliveries
              w.sound.deliveries.referring);
      events_distinct = delete_where-AreDistinct same_event _ db.events w.sound.events_distinct;
      keys_distinct = delete_where-AreDistinct same_key _ db.dispatch_keys w.sound.keys_distinct;
      key_events_distinct =
          delete_where-AreDistinct same_key_event _ db.dispatch_keys w.sound.key_events_distinct;
    };
    keys_referring =
        cascade-AreReferenced (λ (k : DispatchKey). k.event_id) _ db.events db.dispatch_keys
          w.keys_referring;
  }
