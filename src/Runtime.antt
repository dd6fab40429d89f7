-- ===== src/Runtime.antt =====
-- src/runtime.rs: `OutboxRuntime` and `handle_envelope`, which delivers one job. What the
-- environment does during a call is an argument: the wire and the clock of its two statements. The
-- worker's statements commit by themselves, so the state is the database. Tracing is not modelled.
pub mod Jobs
pub mod Marks
pub mod Claim
pub mod Invoke
pub mod Rows
pub mod Statements
pub mod Verdict
pub mod Cases
pub mod Evolution
pub mod Validity
pub mod Fencing
pub mod Outcome
pub mod Attempts
pub mod Retries
pub mod Fates
pub mod Timing
pub mod Reasons
pub mod Redaction
pub mod Machine
pub mod Traces
pub mod Stale
use rust_events.Base.{
  ℕ, Bool, true, false, ◌||◌, Option, none, some, Str, str, str_eq, ◌++◌, Result, ok, err, Action,
  pure, raise, or_raise, catch, ◌>>=◌, ◌>>◌, leb, if◌then◌else◌,
}
use rust_events.Util.{JsonValue, parse_headers}
use rust_events.Handler.{
  HandlerContext, HandlerEnvelope, HandlerError, retry_error, skip_error, abort_error,
}
use rust_events.Registry.{Registry, RegisteredHandler, find_handler}
use rust_events.Builder.Config.{OutboxConfig}
use rust_events.Schema.{Db, Wire, over}
use Jobs.{JobContext, JobError, retry_job, retry_job_in, abort_job, map_sql}
use Marks.{
  stored_reason, mark_sent_fenced, mark_awaiting_retry_fenced, mark_dead_fenced,
  mark_skipped_fenced,
}
use Claim.{Row, clamp_i32, claim_delivery}
use Invoke.{our_timeout, timeout, outcome_of, result_of}

-- `empty_headers` is `serde_json::Map::new()`.
pub record OutboxRuntime (B M : Type 0) : Type 0 where
  pub config : OutboxConfig B
  pub registry : Registry M
  pub empty_headers : M

-- The wire and the clock of the claim, and of the mark.
pub record WorkerIo : Type 0 where
  pub claim_wire : Wire
  pub claim_time : ℕ
  pub mark_wire : Wire
  pub mark_time : ℕ

-- Step 3: the four states of a claim.
pub data ClaimState : Type 0 where
  audit_missing already_terminal update_collision proceed : ClaimState

-- `matches!(prev, "sent" | "dead" | "skipped")`
unfoldable pub is_terminal_label : Str → Bool
is_terminal_label s = str_eq s (str "sent") || str_eq s (str "dead") || str_eq s (str "skipped")

unfoldable pub claim_state : Option Str → Bool → ClaimState
unfolding is_terminal_label
claim_state none _ = audit_missing
claim_state (some prev) false =
    if is_terminal_label prev then already_terminal else update_collision
claim_state (some _) true = proceed

-- `JobError::retry_in` with a delay, `JobError::retry` without.
abbrev pub retry_with : Str → Option ℕ → JobError
retry_with reason none = retry_job reason
retry_with reason (some delay) = retry_job_in reason delay

module _ {M : Type 0} (io : WorkerIo) (env : HandlerEnvelope) (ctx : JobContext) where
  -- Step 7: the terminal transition, by the handler's result.
  unfoldable pub settle : Result (Unit {0}) HandlerError → Action (Db M) (Unit {0}) JobError
  settle (ok _) =
      mark_sent_fenced io.mark_wire io.mark_time env.event_id env.handler_id ctx.lease_token
  settle (err (retry_error reason retry_in)) =
      (if leb ctx.max_attempts ctx.attempt
        then mark_dead_fenced io.mark_wire io.mark_time env.event_id env.handler_id reason
            ctx.lease_token
        else mark_awaiting_retry_fenced io.mark_wire io.mark_time env.event_id env.handler_id reason
            ctx.lease_token)
      >> raise (retry_with (stored_reason reason) retry_in)
  settle (err (skip_error reason)) = do
    mark_skipped_fenced io.mark_wire io.mark_time env.event_id env.handler_id reason ctx.lease_token
    raise (abort_job (str "skipped: " ++ stored_reason reason))
  settle (err (abort_error reason)) = do
    mark_dead_fenced io.mark_wire io.mark_time env.event_id env.handler_id reason ctx.lease_token
    raise (abort_job (stored_reason reason))

  -- Step 3b: the job's handler is not in the registry.
  unfoldable pub mark_unregistered : Action (Db M) (Unit {0}) JobError
  mark_unregistered = do
    mark_dead_fenced io.mark_wire io.mark_time env.event_id env.handler_id
        (str "handler not registered") ctx.lease_token
    raise (abort_job (str "handler not registered"))

  -- Step 4.
  unfoldable pub handler_context : M → Row M → HandlerContext M
  handler_context empty_headers row = record {
    event_id = env.event_id;
    tenant_id = row.tenant_id;
    producer_bc = row.producer_bc;
    attempt = ctx.attempt;
    max_attempts = ctx.max_attempts;
    delivery_key = ctx.idempotency_key;
    dispatch_idempotency_key = row.dispatch_idempotency_key;
    headers = parse_headers empty_headers row.headers;
  }

  -- Steps 4 to 6: what the handler's run comes to.
  unfoldable pub invoke :
      {B : Type 0}
      → OutboxRuntime B M
      → RegisteredHandler M
      → Row M
      → Result (Unit {0}) HandlerError
  invoke rt registered row =
      let run = registered.handler row.payload (handler_context rt.empty_headers row) in
      let limit = our_timeout rt.config.handler_timeout registered.handler_timeout in
      result_of rt.config.decode_error_strategy
        (outcome_of rt.config.panic_policy (timeout limit run))

  -- Steps 3b to 7, on a delivery that is now running.
  unfoldable pub deliver :
      {B : Type 0} → OutboxRuntime B M → Row M → Action (Db M) (Unit {0}) JobError
  deliver rt row = elim (find_handler rt.registry env.handler_id) [
    | none ↦ mark_unregistered
    | some registered ↦ settle (invoke rt registered row)
  ]

  -- Step 3: what to do with the claimed row.
  unfoldable pub after_claim :
      {B : Type 0} → OutboxRuntime B M → Row M → Action (Db M) (Unit {0}) JobError
  after_claim rt row = elim (claim_state row.prev_status row.did_update) [
    | audit_missing ↦ raise (abort_job (str "handler_delivery row not found"))
    | already_terminal ↦ pure tt
    | update_collision ↦ raise (retry_job (str "audit row UPDATE collision"))
    | proceed ↦ deliver rt row
  ]

  -- Step 2, its errors mapped.
  unfoldable pub claim : Action (Db M) (Option (Row M)) JobError
  claim =
      catch (λ e. map_sql e (str "fetch delivery"))
        (over io.claim_wire (
          claim_delivery io.claim_time env.event_id env.handler_id (clamp_i32 ctx.attempt)
            ctx.lease_token))

  unfoldable pub handle_envelope :
      {B : Type 0} → OutboxRuntime B M → Action (Db M) (Unit {0}) JobError
  handle_envelope rt = do
    found ← claim
    row ← or_raise found (abort_job (str "event row missing"))
    after_claim rt row
