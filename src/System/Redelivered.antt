-- ===== src/System/Redelivered.antt =====
-- The attempts of a job, one after another, and what comes between them (src/runtime.rs).
use rust_events.Base.{ℕ, zero, suc, ◌≡◌, ◌⊎◌, true, false}
use rust_events.Handler.{HandlerEnvelope}
use rust_events.Builder.{Outbox}
use rust_events.Schema.{Db}
use rust_events.Dispatch.Transaction.{Pusher, Json}
use rust_events.Runtime.{OutboxRuntime}
use rust_events.System.Losses.{IsPending, IsSettled, AtSome}
use rust_events.System.Job.{Attempts, is_last_attempt, after, wants_next}

module _ {B M : Type 0} (p : Pusher) (json : Json M) (outbox : Outbox B M) (rt : OutboxRuntime B M)
    (env : HandlerEnvelope) (t : ℕ) (db : Db M) (job : Attempts p json outbox rt env t db) where
  abbrev pub AsksAgain : ℕ → Type 0
  AsksAgain k = wants_next p json outbox rt env t db job k ≡ true

  abbrev pub HasAttemptsLeft : ℕ → Type 0
  HasAttemptsLeft k = is_last_attempt p json outbox rt env t db job k ≡ false

  -- The queue runs the job for the `k`-th time: every attempt before was to be followed by another.
  abbrev pub IsReached : ℕ → Type 0
  IsReached zero = Unit
  IsReached (suc k) = IsReached k × AsksAgain k × HasAttemptsLeft k

  abbrev left : ℕ → Db M
  left = after p json outbox rt env t db job

  abbrev IsDue : Db M → Type 0
  IsDue = IsPending env.event_id env.handler_id

  abbrev IsOver : Db M → Type 0
  IsOver = IsSettled env.event_id env.handler_id

  -- The `k`-th attempt settles the delivery, or others do before the next.
  abbrev pub IsSettledAt : ℕ → Type 0
  IsSettledAt k =
      IsSettled env.event_id env.handler_id (after p json outbox rt env t db job k)
      ⊎ ((wanted : AsksAgain k) × (more : HasAttemptsLeft k) × AtSome p json outbox rt
            (IsSettled env.event_id env.handler_id) (job.redelivers k wanted more))
