-- ===== src/Builder/Options.antt =====
-- `HandlerOptions` of src/builder.rs.
use rust_events.Base.{ℕ, Option, none, some}

pub record HandlerOptions : Type 0 where
  pub handler_timeout : Option ℕ
  pub concurrency_limit : Option ℕ

unfoldable pub new : HandlerOptions
new = record { handler_timeout = none; concurrency_limit = none }

unfoldable pub handler_timeout : HandlerOptions → ℕ → HandlerOptions
handler_timeout o d = record o { handler_timeout = some d }

unfoldable pub concurrency_limit : HandlerOptions → ℕ → HandlerOptions
concurrency_limit o n = record o { concurrency_limit = some n }
