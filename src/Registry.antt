-- ===== src/Registry.antt =====
-- src/registry.rs: the registry from handler ids to handlers, and from event types to ids.
use rust_events.Base.{ℕ, Option, List, [], Str, HashMap, lookup, get_or}
use rust_events.Handler.{ErasedHandler}

pub record RegisteredHandler (M : Type 0) : Type 0 where
  pub handler : ErasedHandler M
  pub handler_timeout : Option ℕ
  pub concurrency_limit : Option ℕ

pub record Registry (M : Type 0) : Type 0 where
  pub handlers : HashMap (RegisteredHandler M)
  pub by_type : HashMap (List Str)

module _ {M : Type 0} where
  -- `Registry::new`
  unfoldable pub empty : Registry M
  empty = record { handlers = []; by_type = [] }

  -- `Registry::lookup`
  unfoldable pub find_handler : Registry M → Str → Option (RegisteredHandler M)
  find_handler r handler_id = lookup handler_id r.handlers

  unfoldable pub handler_ids_for : Registry M → Str → List Str
  handler_ids_for r event_type = get_or (lookup event_type r.by_type) []
