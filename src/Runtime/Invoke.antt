-- ===== src/Runtime/Invoke.antt =====
-- Steps 4 to 6 of `handle_envelope` in src/runtime.rs: the call of the handler under a timeout,
-- and what its outcome means. `tokio::time::timeout` polls the future, and looks at its timer only
-- when the poll is over and has left the future pending. So it fires just if the future yields at the
-- deadline or later, or waits for ever, and it cannot fire while the future blocks its thread: one
-- that then ends in the same poll is in time, however long that takes. A poll that is never over is
-- no run of the model, since nothing after it happens.
use rust_events.Base.{
  ℕ, ◌-◌, max, Option, Str, str, ◌++◌, Result, ok, err, get_or, ltb, if◌then◌else◌,
}
use rust_events.Util.{PanicPayload, panic_payload_message, sanitize_reason}
use rust_events.Handler.{
  HandlerError, retry_error, abort_error, retry, abort, HandlerOutcome, done, handler_error,
  decode_failed, Ending, Async, returned, panicked, pending, ms,
}
use rust_events.Builder.Config.{
  handler_cleanup_budget, DecodeStrategy, retry_decode, abort_decode, PanicPolicy, retry_panic,
  dead_panic,
}

-- `our_timeout`, from the global timeout and the handler's override.
unfoldable pub our_timeout : ℕ → Option ℕ → ℕ
our_timeout global handler_timeout =
    let effective_timeout = get_or handler_timeout global in
    max (effective_timeout - handler_cleanup_budget) (ms 100)

-- `timeout(our_timeout, user_fut.catch_unwind()).await`
pub data Timed : Type 0 where
  completed : HandlerOutcome → Timed
  caught : PanicPayload → Timed
  elapsed : Timed

abbrev pub ending_in_time : Ending HandlerOutcome → Timed
ending_in_time (returned o) = completed o
ending_in_time (panicked p) = caught p
ending_in_time pending = elapsed

unfoldable pub timeout : ℕ → Async HandlerOutcome → Timed
timeout limit run = if ltb run.last_yield limit then ending_in_time run.ending else elapsed

unfoldable pub panic_reason : PanicPayload → Str
panic_reason p = str "panic: " ++ sanitize_reason (panic_payload_message p)

-- The `match` on the timed call.
unfoldable pub outcome_of : PanicPolicy → Timed → HandlerOutcome
outcome_of policy (completed o) = o
outcome_of retry_panic (caught p) = handler_error (retry (panic_reason p))
outcome_of dead_panic (caught p) = handler_error (abort (panic_reason p))
outcome_of policy elapsed = handler_error (retry (str "handler_timeout"))

-- Step 6: decode failures follow `decode_error_strategy`.
unfoldable pub result_of : DecodeStrategy → HandlerOutcome → Result (Unit {0}) HandlerError
result_of strategy done = ok tt
result_of strategy (handler_error e) = err e
result_of retry_decode (decode_failed reason) = err (retry_error reason Option.none)
result_of abort_decode (decode_failed reason) = err (abort_error reason)
