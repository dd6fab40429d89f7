-- ===== src/Dispatch/Transaction.antt =====
-- The caller's transaction, as `dispatch` writes to it, and the statements of src/outbox.rs. A
-- table is a set of rows: events and keys are added in front, deliveries at the end.
use rust_events.Base.{
  ℕ, suc, ◌+◌, Bool, true, false, not, ◌&&◌, Option, none, some, List, [], ◌∷◌, ◌++◌, Str, str,
  str_eq, Result, ok, err, Action, any, first, select_where, length, ◌==◌, if◌then◌else◌,
}
use rust_events.Util.{SqlxError, database, JsonValue}
use rust_events.Handler.{HandlerEnvelope}
use rust_events.Schema.{
  Db, EventRow, DispatchKey, Delivery, Wire, over, events_check, dispatch_keys_check,
  deliveries_check, is_delivery, check_violation, unique_violation,
}
use rust_events.Schema.Status.{queued}

-- What this library uses of `pg_work_queue::Pusher`. `Jobs` is the queue's table.
pub record Pusher : Type 1 where
  pub Jobs : Type 0
  pub PushError : Type 0
  pub is_retriable : PushError → Bool
  -- queue, jobs with their concurrency keys
  pub push_batch :
      Str → List (HandlerEnvelope × Option Str) → Jobs → Result (Unit {0}) PushError × Jobs

-- What it uses of serde_json and of Postgres for headers: `Map::new()`, `to_string`, the cast
-- `::jsonb` and `octet_length(headers::text)`.
pub record Json (M : Type 0) : Type 0 where
  pub empty : M
  pub to_string : M → Result Str Str
  pub jsonb_in : Str → Result (JsonValue M) SqlxError
  pub octets : JsonValue M → ℕ

-- `aborted`: a statement failed, and the server refuses all but a rollback.
pub record Tx (M J : Type 0) : Type 0 where
  pub db : Db M
  pub jobs : J
  pub aborted : Bool

abbrev pub in_failed_sql_transaction : SqlxError
in_failed_sql_transaction = database (some (str "25P02")) (str "")

module _ {M J A : Type 0} where
  abbrev pub after_statement : Tx M J → Result A SqlxError × Db M → Result A SqlxError × Tx M J
  after_statement tx (ok a, db) = (ok a, record tx { db = db })
  after_statement tx (err e, db) = (err e, record tx { db = db; aborted = true })

  -- One statement in the transaction.
  unfoldable pub statement : Wire → Action (Db M) A SqlxError → Action (Tx M J) A SqlxError
  statement wire run tx =
      if tx.aborted
      then (err in_failed_sql_transaction, tx)
      else after_statement tx (over wire run tx.db)

abbrev pub is_key : Str → Str → DispatchKey → Bool
is_key tenant key k = str_eq k.tenant_id tenant && str_eq k.idempotency_key key

-- A TEXT cannot hold U+0000: the server refuses a statement with such a parameter by SQLSTATE 22021
-- (src/util.rs), and does nothing.
unfoldable pub has_nul : List Str → Bool
has_nul texts = any (any (λ c. c == 0)) texts

abbrev pub character_not_in_repertoire : SqlxError
character_not_in_repertoire = database (some (str "22021")) (str "")

abbrev pub text_of : Option Str → List Str
text_of none = []
text_of (some s) = s ∷ []

-- The parameters of `outbox.events` that are texts.
abbrev pub event_texts : {M : Type 0} → EventRow M → List Str
event_texts e = e.event_type ∷ e.producer_bc ∷ e.tenant_id ∷ text_of e.aggregate_key

module _ {M : Type 0} where
  -- The upsert of step 5; its value is `(event_id, inserted)`.
  unfoldable pub reserve_key : ℕ → Str → Str → ℕ → Action (Db M) (ℕ × Bool) SqlxError
  reserve_key now tenant key event_id db =
      if has_nul (tenant ∷ key ∷ [])
      then (err character_not_in_repertoire, db)
      else elim (first (select_where (is_key tenant key) db.dispatch_keys)) [
        | some k ↦ (ok (k.event_id, false), db)
        | none ↦
            if not (dispatch_keys_check row)
            then (err check_violation, db)
            else if any (λ k. k.event_id == event_id) db.dispatch_keys
            then (err unique_violation, db)
            else (ok (event_id, true), record db { dispatch_keys = row ∷ db.dispatch_keys })
      ]
    where
      row : DispatchKey
      row = record {
        tenant_id = tenant;
        idempotency_key = key;
        event_id = event_id;
        created_at = now;
      }

  -- INSERT INTO outbox.events.
  unfoldable pub insert_event : (JsonValue M → ℕ) → EventRow M → Action (Db M) (Unit {0}) SqlxError
  insert_event octets e db =
      if has_nul (event_texts e)
      then (err character_not_in_repertoire, db)
      else if not (events_check octets e)
      then (err check_violation, db)
      else if any (λ x. x.id == e.id) db.events
      then (err unique_violation, db)
      else (ok tt, record db { events = e ∷ db.events })

-- The rows of `SELECT ev.id, unnest($8)`, with the columns' defaults.
abbrev pub queued_delivery : ℕ → ℕ → ℕ → Str → Delivery
queued_delivery now event_id id handler_id = record {
  id = id;
  event_id = event_id;
  handler_id = handler_id;
  status = queued;
  attempts = 0;
  last_error = none;
  lease_token = none;
  first_attempted_at = none;
  last_attempted_at = none;
  finished_at = none;
  created_at = now;
  updated_at = now;
}

abbrev pub fan_out : ℕ → ℕ → ℕ → List Str → List Delivery
fan_out now event_id next [] = []
fan_out now event_id next (h ∷ hs) =
    queued_delivery now event_id next h ∷ fan_out now event_id (suc next) hs

-- INSERT INTO outbox.handler_deliveries, row by row; a refused row refuses the statement.
unfoldable pub insert_deliveries : List Delivery → List Delivery → Result (List Delivery) SqlxError
insert_deliveries [] ds = ok ds
insert_deliveries (r ∷ rs) ds =
    let rest = insert_deliveries rs (ds ++ r ∷ []) in
    if not (deliveries_check r)
    then err check_violation
    else if any (is_delivery r.event_id r.handler_id) ds
    then err unique_violation
    else rest

module _ {M : Type 0} where
  -- The statement of step 8: the event and its deliveries, or nothing.
  unfoldable pub insert_event_and_deliveries :
      (JsonValue M → ℕ) → EventRow M → List Str → Action (Db M) (Unit {0}) SqlxError
  insert_event_and_deliveries octets e handler_ids db =
      let (inserted, db1) = insert_event octets e db in
      if has_nul handler_ids then (err character_not_in_repertoire, db) else elim inserted [
        | err x ↦ (err x, db)
        | ok _ ↦
            elim (insert_deliveries (fan_out e.created_at e.id db1.next_delivery_id handler_ids)
              db1.deliveries) [
                | err x ↦ (err x, db)
                | ok ds ↦ (
                  ok tt,
                  record db1 {
                    deliveries = ds;
                    next_delivery_id = db1.next_delivery_id + length handler_ids;
                  },
                )
              ]
      ]
