-- ===== src/System/Sound.antt =====
-- The tables of src/migrations/20260513000001_v01_outbox_init.sql as the constraints and the code
-- keep them, between statements and between transactions.
use rust_events.Base.{
  ℕ, Bool, ◌<◌, ◌≤◌, ◌≡◌, List, Str, str_eq, str_eq_iff, ◌==◌, All, AreDistinct, AreDistinct-HasKey,
  HasKey, arith,
}
use rust_events.Schema.{Db, EventRow, DispatchKey, Delivery, is_delivery}
use rust_events.Schema.Valid.{AreValid, AreValid-mono}
use rust_events.Purge.Statements.{same_event, same_key, same_delivery}
use rust_events.Purge.Cascade.{AreReferenced}
use rust_events.Purge.Total.{HasReferences}
use rust_events.System.{KeysRefer}

-- UNIQUE (event_id, handler_id)
abbrev pub same_row : Delivery → Delivery → Bool
same_row v d = is_delivery v.event_id v.handler_id d

-- UNIQUE (event_id) of the keys
abbrev pub same_key_event : DispatchKey → DispatchKey → Bool
same_key_event v k = v.event_id == k.event_id

pub record DeliveriesAreSound {M : Type 0} (now next : ℕ) (es : List (EventRow M))
    (ds : List Delivery) : Type 0 where
  pub valid : AreValid now ds
  pub ids_below : All (λ d. d.id < next) ds
  pub ids_distinct : AreDistinct same_delivery ds
  pub rows_distinct : AreDistinct same_row ds
  pub referring : AreReferenced (λ (d : Delivery). d.event_id) es ds

-- Within a transaction.
pub record IsSound {M : Type 0} (now : ℕ) (db : Db M) : Type 0 where
  pub deliveries : DeliveriesAreSound now db.next_delivery_id db.events db.deliveries
  pub events_distinct : AreDistinct same_event db.events
  pub keys_distinct : AreDistinct same_key db.dispatch_keys
  pub key_events_distinct : AreDistinct same_key_event db.dispatch_keys

-- Between transactions.
pub record IsWellFormed {M : Type 0} (now : ℕ) (db : Db M) : Type 0 where
  pub sound : IsSound now db
  pub keys_referring : KeysRefer db

str_eq_sym : (s t : Str) → str_eq s t ≡ str_eq t s
str_eq_sym s t = ground (arith, str_eq_iff s t, str_eq_iff t s)

module _ {M : Type 0} {now : ℕ} (db : Db M) where
  pub IsSound-mono : {u : ℕ} → now ≤ u → IsSound now db → IsSound u db
  IsSound-mono le s = record {
    deliveries = record {
      valid = AreValid-mono db.deliveries le s.deliveries.valid;
      ids_below = s.deliveries.ids_below;
      ids_distinct = s.deliveries.ids_distinct;
      rows_distinct = s.deliveries.rows_distinct;
      referring = s.deliveries.referring;
    };
    events_distinct = s.events_distinct;
    keys_distinct = s.keys_distinct;
    key_events_distinct = s.key_events_distinct;
  }

  pub IsWellFormed-mono : {u : ℕ} → now ≤ u → IsWellFormed now db → IsWellFormed u db
  IsWellFormed-mono le w = record {
    sound = IsSound-mono le w.sound;
    keys_referring = w.keys_referring;
  }

  pub IsSound-HasKey : IsSound now db → HasKey same_delivery db.deliveries
  IsSound-HasKey s =
      AreDistinct-HasKey same_delivery (λ d e. ground arith) db.deliveries s.deliveries.ids_distinct

  pub IsSound-HasKey_of_keys : IsSound now db → HasKey same_key db.dispatch_keys
  IsSound-HasKey_of_keys s =
      AreDistinct-HasKey same_key
        (λ k j. ground (
          arith,
          str_eq_sym k.tenant_id j.tenant_id,
          str_eq_sym k.idempotency_key j.idempotency_key,
        ))
        db.dispatch_keys s.keys_distinct

  pub IsWellFormed-HasReferences : IsWellFormed now db → HasReferences db
  IsWellFormed-HasReferences w = record {
    key = AreDistinct-HasKey same_event (λ d e. ground arith) db.events w.sound.events_distinct;
    deliveries_refer = w.sound.deliveries.referring;
    keys_refer = w.keys_referring;
  }
