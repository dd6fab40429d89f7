-- ===== src/Dispatch/Context.antt =====
-- src/dispatch_context.rs. `M` is `serde_json::Map`; the accessors are the fields.
use rust_events.Base.{Option, none, some, [], Str}

pub record DispatchContext (M : Type 0) : Type 0 where
  pub tenant_id : Str
  pub producer_bc : Str
  pub idempotency_key : Option Str
  pub headers : Option M

module _ {M : Type 0} where
  unfoldable pub new : Str → DispatchContext M
  new tenant_id = record {
    tenant_id = tenant_id;
    producer_bc = [];
    idempotency_key = none;
    headers = none;
  }

  unfoldable pub with_producer_bc : DispatchContext M → Str → DispatchContext M
  with_producer_bc ctx bc = record ctx { producer_bc = bc }

  unfoldable pub with_idempotency_key : DispatchContext M → Str → DispatchContext M
  with_idempotency_key ctx key = record ctx { idempotency_key = some key }

  unfoldable pub with_headers : DispatchContext M → M → DispatchContext M
  with_headers ctx headers = record ctx { headers = some headers }
