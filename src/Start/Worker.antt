-- ===== src/Start/Worker.antt =====
-- What `Outbox::start` asks of `pg_work_queue::Worker`, and the configuration it gives it.
use rust_events.Base.{ℕ, none, some, List, [], ◌∷◌, Str, Result, Action}
use rust_events.Handler.{HandlerEnvelope}
use rust_events.Registry.{RegisteredHandler}
use rust_events.Builder.Config.{PanicPolicy}
use rust_events.Builder.{Outbox}
use rust_events.Schema.{Db}
use rust_events.Dispatch.{pgwq_queue}
use rust_events.Runtime.Jobs.{JobContext, JobError}
use rust_events.Runtime.{OutboxRuntime, WorkerIo, handle_envelope}

pub record WorkerConfig (B M : Type 0) : Type 0 where
  pub queue : Str
  pub poll_interval : ℕ
  pub concurrency : ℕ
  pub concurrency_limits : List (Str × ℕ)
  pub max_attempts : ℕ
  pub lease_timeout : ℕ
  pub handler_timeout : ℕ
  pub retry_backoff : B
  pub panic_policy : PanicPolicy
  pub handler : WorkerIo → HandlerEnvelope → JobContext → Action (Db M) (Unit {0}) JobError

-- The library's errors, worker and handle.
pub record Queue (B M : Type 0) : Type 1 where
  pub BuildError : Type 0
  pub StartError : Type 0
  pub Worker : Type 0
  pub Handle : Type 0
  -- What the library meets during a call.
  pub World : Type 0
  pub build : World → WorkerConfig B M → Result Worker BuildError
  pub start : World → Worker → Result Handle StartError

module _ {M : Type 0} where
  -- The `filter_map` over the registry. A HashMap has no order, nor is one relied on.
  unfoldable pub concurrency_limits : List (Str × RegisteredHandler M) → List (Str × ℕ)
  concurrency_limits [] = []
  concurrency_limits ((id, h) ∷ hs) = elim h.concurrency_limit [
    | none ↦ concurrency_limits hs
    | some n ↦ (id, n) ∷ concurrency_limits hs
  ]

module _ {B M : Type 0} (empty_headers : M) (outbox : Outbox B M) where
  abbrev pub runtime_of : OutboxRuntime B M
  runtime_of = record {
    config = outbox.config;
    registry = outbox.registry;
    empty_headers = empty_headers;
  }

  unfoldable pub worker_config : WorkerConfig B M
  worker_config = record {
    queue = pgwq_queue;
    poll_interval = outbox.config.poll_interval;
    concurrency = outbox.config.concurrency;
    concurrency_limits = concurrency_limits outbox.registry.handlers;
    max_attempts = outbox.config.max_attempts;
    lease_timeout = outbox.config.lease_timeout;
    handler_timeout = outbox.config.handler_timeout;
    retry_backoff = outbox.config.retry_backoff;
    panic_policy = outbox.config.panic_policy;
    handler = λ io env ctx. handle_envelope io env ctx runtime_of;
  }
