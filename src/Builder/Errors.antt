-- ===== src/Builder/Errors.antt =====
-- `BuildError` of src/error.rs.
use rust_events.Base.{ℕ, Str}

-- The text of a `ConfigInvalid`: which it is, and what is interpolated.
pub data ConfigFault : Type 0 where
  concurrency_zero max_attempts_zero timeout_not_below_lease : ConfigFault
  -- label, timeout, minimum
  timeout_below_floor : Str → ℕ → ℕ → ConfigFault
  -- handler id, timeout, global timeout
  timeout_above_global : Str → ℕ → ℕ → ConfigFault
  -- handler id, limit
  limit_out_of_range : Str → ℕ → ConfigFault

pub data BuildError : Type 0 where
  handler_id_empty : BuildError
  -- len, max
  handler_id_too_long : ℕ → ℕ → BuildError
  -- event type, handler id
  duplicate_handler_id : Str → Str → BuildError
  config_invalid : ConfigFault → BuildError
