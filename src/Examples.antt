-- ===== src/Examples.antt =====
-- A small shop: one event type, one handler that mails the customer, one outbox, and its tables. A
-- map of headers is a number here, and the queue keeps the list of its jobs.
pub mod Producer
pub mod Worker
pub mod Setup
pub mod Launch
pub mod Takeover
pub mod Upkeep
pub mod Whole
pub mod Redelivery
pub mod Race
pub mod Edges
use rust_events.Base.{
  ℕ, Bool, true, false, Option, none, some, List, [], ◌∷◌, ◌++◌, Str, str, Result, ok, err, ◌==◌,
  if◌then◌else◌,
}
use rust_events.Util.{SqlxError, JsonValue, object}
use rust_events.Handler.{
  DomainEvent, HandlerError, HandlerContext, Async, returned, Bytes, retry, ms, secs, handle_erased,
  HandlerEnvelope,
}
use rust_events.Registry.{RegisteredHandler, Registry}
use rust_events.Schema.{Db, EventRow, Delivery, Wire, reply}
use rust_events.Builder.Config.{OutboxConfig, retry_decode, retry_panic}
use rust_events.Builder.{OutboxBuilder, Outbox}
use rust_events.Dispatch.Context.{DispatchContext}
use rust_events.Dispatch.Transaction.{Pusher, Json, Tx, queued_delivery}
use rust_events.Dispatch.{DispatchIo}
use rust_events.Runtime.Jobs.{JobContext}
use rust_events.Runtime.{OutboxRuntime, WorkerIo}

abbrev decode_order : Bytes → Result ℕ Str
decode_order [] = err (str "EOF")
decode_order (n ∷ _) = ok n

abbrev pub order_created : DomainEvent
order_created = record {
  Event = ℕ;
  event_type = str "order.created";
  aggregate_key = λ n. none;
  to_vec = λ n. ok (n ∷ []);
  from_slice = decode_order;
}

abbrev mail_result : ℕ → Result (Unit {0}) HandlerError
mail_result n = if n == 1 then ok tt else err (retry (str "smtp down"))

-- Order 1 is mailed; the mail of any other order is to be tried again.
abbrev pub send_mail : ℕ → HandlerContext ℕ → Async (Result (Unit {0}) HandlerError)
send_mail n ctx = record { last_yield = ms 5; ending = returned (mail_result n) }

abbrev pub shop_config : OutboxConfig (Unit {0})
shop_config = record {
  poll_interval = ms 500;
  concurrency = 4;
  max_attempts = 3;
  lease_timeout = secs 60;
  handler_timeout = secs 30;
  retry_backoff = tt;
  panic_policy = retry_panic;
  decode_error_strategy = retry_decode;
}

abbrev pub mail_handler : RegisteredHandler ℕ
mail_handler = record {
  handler = handle_erased order_created send_mail;
  handler_timeout = some (secs 10);
  concurrency_limit = some 2;
}

abbrev pub shop_builder : OutboxBuilder (Unit {0}) ℕ
shop_builder = record {
  config = some shop_config;
  pending =
      record {
        event_type = str "order.created";
        handler_id = str "mail";
        handler = handle_erased order_created send_mail;
        handler_timeout = some (secs 10);
        concurrency_limit = some 2;
      }
      ∷ [];
  allow_no_handlers = false;
}

abbrev pub shop : Outbox (Unit {0}) ℕ
shop = record {
  config = shop_config;
  registry = record {
    handlers = (str "mail", mail_handler) ∷ [];
    by_type = (str "order.created", str "mail" ∷ []) ∷ [];
  };
  allow_no_handlers = false;
  started = false;
}

abbrev pub runtime : OutboxRuntime (Unit {0}) ℕ
runtime = record { config = shop_config; registry = shop.registry; empty_headers = 0 }

-- The row of order 2.
abbrev pub order_row : EventRow ℕ
order_row = record {
  id = 7;
  event_type = str "order.created";
  producer_bc = [];
  tenant_id = str "acme";
  aggregate_key = none;
  payload = 2 ∷ [];
  headers = object 0;
  created_at = 1;
}

abbrev pub mail_delivery : Delivery
mail_delivery = queued_delivery 1 7 1 (str "mail")

abbrev pub tables : Db ℕ
tables = record {
  events = order_row ∷ [];
  dispatch_keys = [];
  deliveries = mail_delivery ∷ [];
  next_delivery_id = 2;
}

abbrev pub mail_job : HandlerEnvelope
mail_job = record { event_id = 7; handler_id = str "mail" }

abbrev pub attempt_under : ℕ → JobContext
attempt_under token = record {
  attempt = 1;
  max_attempts = 3;
  lease_token = token;
  idempotency_key = 70;
}

abbrev pub worker_io : WorkerIo
worker_io = record { claim_wire = reply; claim_time = 5; mark_wire = reply; mark_time = 6 }

abbrev pub pusher : Pusher
pusher = record {
  Jobs = List (HandlerEnvelope × Option Str);
  PushError = Unit {0};
  is_retriable = λ _. true;
  push_batch = λ queue jobs old. (ok tt, old ++ jobs);
}

abbrev pub json : Json ℕ
json = record {
  empty = 0;
  to_string = λ m. ok (str "{}");
  jsonb_in = λ s. ok (object 0);
  octets = λ v. 2;
}

abbrev pub dispatch_io : ℕ → DispatchIo
dispatch_io id = record { event_id = id; now = 1; reserve_wire = reply; insert_wire = reply }

abbrev pub order_ctx : DispatchContext ℕ
order_ctx = record {
  tenant_id = str "acme";
  producer_bc = str "shop";
  idempotency_key = some (str "order:2");
  headers = none;
}

abbrev pub transaction : Tx ℕ (List (HandlerEnvelope × Option Str))
transaction = record {
  db = record { events = []; dispatch_keys = []; deliveries = []; next_delivery_id = 1 };
  jobs = [];
  aborted = false;
}
