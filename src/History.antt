-- ===== src/History.antt =====
-- src/history.rs: the two read-only queries. `COLLATE "C"` orders texts by their bytes, which in
-- UTF-8 is the order of their code points. An `INTEGER` that is not negative is a `u32`.
pub mod Sorted
pub mod Views
use rust_events.Base.{
  ℕ, Bool, true, false, Option, none, some, List, [], ◌∷◌, map, Str, Action, catch, pure, ok, err,
  ◌>>=◌, ltb, ◌==◌, first, select_where, sort_by, if◌then◌else◌,
}
use mathlib.Core.Option
use rust_events.Util.{SqlxError, JsonValue, object, non_object}
use rust_events.Handler.{Bytes}
use rust_events.Schema.{Db, EventRow, Delivery, Wire, over}
use rust_events.Schema.Status.{DeliveryStatus}

-- `HistoryError` of src/error.rs.
pub data HistoryError : Type 0 where
  sqlx : SqlxError → HistoryError

pub record EventRecord (M : Type 0) : Type 0 where
  pub id : ℕ
  pub event_type : Str
  pub producer_bc : Str
  pub tenant_id : Str
  pub aggregate_key : Option Str
  pub payload : Bytes
  pub headers : M
  pub created_at : ℕ

pub record HandlerDeliveryRecord : Type 0 where
  pub id : ℕ
  pub event_id : ℕ
  pub handler_id : Str
  pub status : DeliveryStatus
  pub attempts : ℕ
  pub last_error : Option Str
  pub first_attempted_at : Option ℕ
  pub last_attempted_at : Option ℕ
  pub finished_at : Option ℕ

abbrev pub headers_of : {M : Type 0} → M → JsonValue M → M
headers_of empty_headers (object m) = m
headers_of empty_headers non_object = empty_headers

abbrev pub event_record : {M : Type 0} → M → EventRow M → EventRecord M
event_record empty_headers row = record {
  id = row.id;
  event_type = row.event_type;
  producer_bc = row.producer_bc;
  tenant_id = row.tenant_id;
  aggregate_key = row.aggregate_key;
  payload = row.payload;
  headers = headers_of empty_headers row.headers;
  created_at = row.created_at;
}

abbrev pub delivery_record : Delivery → HandlerDeliveryRecord
delivery_record d = record {
  id = d.id;
  event_id = d.event_id;
  handler_id = d.handler_id;
  status = d.status;
  attempts = d.attempts;
  last_error = d.last_error;
  first_attempted_at = d.first_attempted_at;
  last_attempted_at = d.last_attempted_at;
  finished_at = d.finished_at;
}

-- The order of `COLLATE "C"`.
unfoldable pub str_le : Str → Str → Bool
str_le [] t = true
str_le (c ∷ s) [] = false
str_le (c ∷ s) (d ∷ t) = if c == d then str_le s t else ltb c d

abbrev pub handler_first : Delivery → Delivery → Bool
handler_first d e = str_le d.handler_id e.handler_id

module _ {M : Type 0} where
  abbrev pub select_event : ℕ → Action (Db M) (Option (EventRow M)) SqlxError
  select_event event_id db = (ok (first (select_where (λ e. e.id == event_id) db.events)), db)

  abbrev pub select_deliveries : ℕ → Action (Db M) (List Delivery) SqlxError
  select_deliveries event_id db =
      (ok (sort_by handler_first (select_where (λ d. d.event_id == event_id) db.deliveries)), db)

  -- `History::event`; `empty_headers` is `serde_json::Map::new()`.
  unfoldable pub event : M → Wire → ℕ → Action (Db M) (Option (EventRecord M)) HistoryError
  event empty_headers wire event_id = do
    row ← catch sqlx (over wire (select_event event_id))
    pure (Option.map (event_record empty_headers) row)

  -- `History::handler_deliveries_for`
  unfoldable pub handler_deliveries_for :
      Wire → ℕ → Action (Db M) (List HandlerDeliveryRecord) HistoryError
  handler_deliveries_for wire event_id = do
    rows ← catch sqlx (over wire (select_deliveries event_id))
    pure (map delivery_record rows)
