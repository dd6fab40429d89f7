-- ===== src/Builder.antt =====
-- `OutboxBuilder` of src/builder.rs: handlers are collected, and validated when the outbox is
-- built. `B` is `pg_work_queue::BackoffPolicy` and `M` is `serde_json::Map`. The connection pool is
-- not a value of the model.
pub mod Errors
pub mod Options
pub mod Config
pub mod ConfigBounds
pub mod Registration
pub mod Built
use rust_events.Base.{
  ℕ, ◌-◌, Bool, false, ◌||◌, Option, none, some, List, [], ◌∷◌, ◌++◌, Str, str, len, Result, ok,
  err, HashMap, insert, contains_key, push_at, is_empty, get_or, ltb, ◌==◌,
}
use rust_events.Base.Try.{◌>>=◌, ◌>>◌, fail_if}
use rust_events.Limits.{max_handler_id_bytes}
use rust_events.Handler.{DomainEvent, EventHandler, ErasedHandler, handle_erased}
use rust_events.Registry.{Registry, RegisteredHandler}
use Errors.{
  BuildError, handler_id_empty, handler_id_too_long, duplicate_handler_id, config_invalid,
  timeout_above_global, limit_out_of_range,
}
use Options.{HandlerOptions}
use Config.{OutboxConfig, handler_timeout_floor_check}

pub record PendingHandler (M : Type 0) : Type 0 where
  pub event_type : Str
  pub handler_id : Str
  pub handler : ErasedHandler M
  pub handler_timeout : Option ℕ
  pub concurrency_limit : Option ℕ

pub record OutboxBuilder (B M : Type 0) : Type 0 where
  pub config : Option (OutboxConfig B)
  pub pending : List (PendingHandler M)
  pub allow_no_handlers : Bool

-- src/outbox.rs: what `build` returns; `started` is the flag of `Outbox::start`.
pub record Outbox (B M : Type 0) : Type 0 where
  pub config : OutboxConfig B
  pub registry : Registry M
  pub allow_no_handlers : Bool
  pub started : Bool

-- `i32::MAX`
abbrev pub i32_max : ℕ
i32_max = 2_147_483_647

unfoldable pub new : {B M : Type 0} → OutboxBuilder B M
new = record { config = none; pending = []; allow_no_handlers = false }

-- `if let Some(ht) = entry.handler_timeout { … }`
unfoldable pub check_timeout :
    {B : Type 0} → OutboxConfig B → Str → Option ℕ → Result (Unit {0}) BuildError
unfolding handler_timeout_floor_check
check_timeout cfg handler_id none = ok tt
check_timeout cfg handler_id (some ht) = do
  handler_timeout_floor_check ht (str "handler '" ++ handler_id ++ str "'")
  fail_if (ltb cfg.handler_timeout ht)
      (config_invalid (timeout_above_global handler_id ht cfg.handler_timeout))

-- `if let Some(limit) = entry.concurrency_limit && …`
unfoldable pub check_limit : Str → Option ℕ → Result (Unit {0}) BuildError
check_limit handler_id none = ok tt
check_limit handler_id (some limit) =
    fail_if (limit == 0 || ltb i32_max limit) (config_invalid (limit_out_of_range handler_id limit))

-- The two insertions at its end.
abbrev pub add_entry : {M : Type 0} → Registry M → PendingHandler M → Registry M
add_entry r entry = record {
  handlers =
      insert entry.handler_id
        (record {
          handler = entry.handler;
          handler_timeout = entry.handler_timeout;
          concurrency_limit = entry.concurrency_limit;
        })
        r.handlers;
  by_type = push_at entry.event_type entry.handler_id r.by_type;
}

module _ {B M : Type 0} where
  unfoldable pub config : OutboxBuilder B M → OutboxConfig B → OutboxBuilder B M
  config b cfg = record b { config = some cfg }

  unfoldable pub register_handler :
      (e : DomainEvent)
      → OutboxBuilder B M
      → Str
      → EventHandler M e
      → HandlerOptions
      → OutboxBuilder B M
  register_handler e b handler_id handler options = record b { pending = b.pending ++ entry ∷ [] }
    where
      entry : PendingHandler M
      entry = record {
        event_type = e.event_type;
        handler_id = handler_id;
        handler = handle_erased e handler;
        handler_timeout = options.handler_timeout;
        concurrency_limit = options.concurrency_limit;
      }

  unfoldable pub allow_no_handlers : OutboxBuilder B M → Bool → OutboxBuilder B M
  allow_no_handlers b allow = record b { allow_no_handlers = allow }

  -- The checks in the body of the loop of `build`.
  unfoldable pub check_entry :
      OutboxConfig B
      → HashMap (RegisteredHandler M)
      → PendingHandler M
      → Result (Unit {0}) BuildError
  unfolding check_timeout check_limit
  check_entry cfg handlers entry = do
    fail_if (is_empty entry.handler_id) handler_id_empty
    fail_if (ltb max_handler_id_bytes (len entry.handler_id))
        (handler_id_too_long (len entry.handler_id) max_handler_id_bytes)
    fail_if (contains_key entry.handler_id handlers)
        (duplicate_handler_id entry.event_type entry.handler_id)
    check_timeout cfg entry.handler_id entry.handler_timeout
    check_limit entry.handler_id entry.concurrency_limit

  -- The loop of `build` over the pending handlers.
  unfoldable pub register_all :
      OutboxConfig B → List (PendingHandler M) → Registry M → Result (Registry M) BuildError
  unfolding check_entry
  register_all cfg [] r = ok r
  register_all cfg (entry ∷ rest) r =
      let after = register_all cfg rest (add_entry r entry) in
      check_entry cfg r.handlers entry >> after

  -- `Outbox::new` of src/outbox.rs
  abbrev pub new_outbox : OutboxConfig B → Registry M → Bool → Outbox B M
  new_outbox config registry allow_no_handlers = record {
    config = config;
    registry = registry;
    allow_no_handlers = allow_no_handlers;
    started = false;
  }

  -- `OutboxBuilder::build`; `fallback` is `OutboxConfig::default()`.
  unfoldable pub build : OutboxConfig B → OutboxBuilder B M → Result (Outbox B M) BuildError
  unfolding register_all
  build fallback b = do
    let config = get_or b.config fallback
    registry ← register_all config b.pending (record { handlers = []; by_type = [] })
    ok (new_outbox config registry b.allow_no_handlers)
