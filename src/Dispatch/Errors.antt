-- ===== src/Dispatch/Errors.antt =====
-- `DispatchError` of src/error.rs and `DispatchOutcome` of src/outcome.rs. `P` is
-- `pg_work_queue::PushError`, whose `is_retriable` is a parameter.
use rust_events.Base.{ℕ, Bool, true, false, Str, if◌then◌else◌}
use rust_events.Util.{SqlxError, is_sqlx_deterministic}

pub data DispatchError (P : Type 0) : Type 0 where
  -- actual length or size, maximum
  tenant_id_too_long producer_bc_too_long event_type_invalid : ℕ → ℕ → DispatchError P
  idempotency_key_invalid aggregate_key_invalid : ℕ → ℕ → DispatchError P
  payload_too_large headers_too_large : ℕ → ℕ → DispatchError P
  no_handlers_registered : Str → DispatchError P
  codec : Str → DispatchError P
  pgwq_push : P → DispatchError P
  constraint transient : SqlxError → DispatchError P

pub data DispatchOutcome : Type 0 where
  -- event id, deliveries
  dispatched : ℕ → ℕ → DispatchOutcome
  duplicate : ℕ → DispatchOutcome
  no_handlers : ℕ → DispatchOutcome

module _ {P : Type 0} where
  unfoldable pub is_retriable : (P → Bool) → DispatchError P → Bool
  is_retriable push_is_retriable (transient _) = true
  is_retriable push_is_retriable (pgwq_push e) = push_is_retriable e
  is_retriable push_is_retriable _ = false

-- `From<sqlx::Error>`
unfoldable pub from_sqlx : {P : Type 0} → SqlxError → DispatchError P
from_sqlx e = if is_sqlx_deterministic e then constraint e else transient e
