-- ===== src/Schema.antt =====
-- migrations/20260513000001_v01_outbox_init.sql: the three tables of the schema `outbox`, their
-- CHECK and key constraints, and statements that may fail. A table is the list of its
-- rows. An id, a token and a time are numbers, a column that admits NULL is an `Option`.
pub mod Status
pub mod Valid
use rust_events.Base.{
  ℕ, ◌+◌, Bool, true, false, not, ◌&&◌, ◌||◌, Option, none, some, List, Str, str, len, Result, ok,
  err, Action, is_none, is_some, get_or, any, all, length, leb, ltb, ◌==◌, str_eq, if◌then◌else◌,
}
use rust_events.Util.{SqlxError, database, JsonValue, object, non_object}
use rust_events.Handler.{Bytes}
use Status.{DeliveryStatus, is_queued, is_running, is_awaiting_retry, is_terminal}

pub record EventRow (M : Type 0) : Type 0 where
  pub id : ℕ
  pub event_type : Str
  pub producer_bc : Str
  pub tenant_id : Str
  pub aggregate_key : Option Str
  pub payload : Bytes
  pub headers : JsonValue M
  pub created_at : ℕ

pub record DispatchKey : Type 0 where
  pub tenant_id : Str
  pub idempotency_key : Str
  pub event_id : ℕ
  pub created_at : ℕ

pub record Delivery : Type 0 where
  pub id : ℕ
  pub event_id : ℕ
  pub handler_id : Str
  pub status : DeliveryStatus
  -- The CHECK `attempts >= 0` is in the type.
  pub attempts : ℕ
  pub last_error : Option Str
  pub lease_token : Option ℕ
  pub first_attempted_at : Option ℕ
  pub last_attempted_at : Option ℕ
  pub finished_at : Option ℕ
  pub created_at : ℕ
  pub updated_at : ℕ

-- `next_delivery_id` is the identity column's sequence.
pub record Db (M : Type 0) : Type 0 where
  pub events : List (EventRow M)
  pub dispatch_keys : List DispatchKey
  pub deliveries : List Delivery
  pub next_delivery_id : ℕ

-- `octet_length(s) BETWEEN 1 AND max`
abbrev pub between_1_and : ℕ → Str → Bool
between_1_and max s = leb 1 (len s) && leb (len s) max

abbrev key_octets : Option Str → Bool
key_octets none = true
key_octets (some k) = between_1_and 128 k

abbrev is_object : {M : Type 0} → JsonValue M → Bool
is_object (object _) = true
is_object non_object = false

-- The CHECK constraints of `outbox.events`. `octets` is `octet_length(headers::text)`.
unfoldable pub events_check : {M : Type 0} → (JsonValue M → ℕ) → EventRow M → Bool
events_check octets e =
    between_1_and 128 e.event_type
    && leb (len e.producer_bc) 64
    && leb (len e.tenant_id) 64
    && key_octets e.aggregate_key
    && leb (length e.payload) 1_048_576
    && is_object e.headers
    && leb (octets e.headers) 16384

-- The CHECK constraints of `outbox.dispatch_keys`.
unfoldable pub dispatch_keys_check : DispatchKey → Bool
dispatch_keys_check k = leb (len k.tenant_id) 64 && between_1_and 128 k.idempotency_key

-- `at IS NULL OR at >= bound`
abbrev pub at_least : Option ℕ → ℕ → Bool
at_least none bound = true
at_least (some at) bound = leb bound at

-- `handler_deliveries_temporal`
unfoldable pub temporal_check : Delivery → Bool
temporal_check d =
    at_least d.first_attempted_at d.created_at
    && at_least d.last_attempted_at (get_or d.first_attempted_at d.created_at)
    && at_least d.finished_at (get_or d.last_attempted_at d.created_at)
    && leb d.created_at d.updated_at

-- `handler_deliveries_status_invariants`
unfoldable pub status_invariants : Delivery → Bool
status_invariants d =
    (is_queued d.status
      && d.attempts == 0
      && is_none d.first_attempted_at
      && is_none d.last_attempted_at
      && is_none d.finished_at
      && is_none d.lease_token)
    || (is_running d.status
        && ltb 0 d.attempts
        && is_some d.first_attempted_at
        && is_some d.last_attempted_at
        && is_none d.finished_at
        && is_some d.lease_token)
    || (is_awaiting_retry d.status
        && ltb 0 d.attempts
        && is_some d.first_attempted_at
        && is_some d.last_attempted_at
        && is_none d.finished_at
        && is_none d.lease_token)
    || (is_terminal d.status
        && ltb 0 d.attempts
        && is_some d.first_attempted_at
        && is_some d.last_attempted_at
        && is_some d.finished_at
        && is_none d.lease_token)

abbrev last_error_octets : Option Str → Bool
last_error_octets none = true
last_error_octets (some e) = leb (len e) 8192

-- The CHECK constraints of `outbox.handler_deliveries`.
unfoldable pub deliveries_check : Delivery → Bool
unfolding temporal_check status_invariants
deliveries_check d =
    between_1_and 128 d.handler_id
    && last_error_octets d.last_error
    && temporal_check d
    && status_invariants d

-- The trigger `touch_handler_deliveries`.
abbrev pub set_updated_at : ℕ → Delivery → Delivery
set_updated_at now d = record d { updated_at = now }

-- The server's answers to a write that a constraint forbids.
abbrev pub check_violation : SqlxError
check_violation = database (some (str "23514")) (str "")

abbrev pub unique_violation : SqlxError
unique_violation = database (some (str "23505")) (str "")

-- What becomes of one statement: it is answered, or the call fails, either before the server has
-- run it or after that, with the answer lost.
pub data Wire : Type 0 where
  reply : Wire
  lost_before lost_after : SqlxError → Wire

unfoldable pub over : {S A : Type 0} → Wire → Action S A SqlxError → Action S A SqlxError
over reply m s = m s
over (lost_before e) m s = (err e, s)
over (lost_after e) m s = (err e, (m s).1)

-- The row of `outbox.handler_deliveries` that the UNIQUE key (event_id, handler_id) names.
abbrev pub is_delivery : ℕ → Str → Delivery → Bool
is_delivery event_id handler_id d = d.event_id == event_id && str_eq d.handler_id handler_id
