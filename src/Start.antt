-- ===== src/Start.antt =====
-- `Outbox::start` and `StartedGuard` of src/outbox.rs, with StartError of src/error.rs. The state is
-- the flag `started`. What the call meets is an argument: the pool's size and the answer to the
-- schema probe. The warning on a current-thread runtime is not modelled.
pub mod Worker
pub mod Once
pub mod Limits
use rust_events.Base.{
  ℕ, ◌+◌, ◌*◌, ◌^◌, ◌-◌, min, Bool, true, false, ◌||◌, Option, none, some, Str, str, str_eq, Result,
  ok, err, Action, map_err, ltb, if◌then◌else◌,
}
use rust_events.Base.Try.{◌>>=◌, ◌>>◌, fail_if}
use rust_events.Util.{SqlxError, database}
use rust_events.Builder.{Outbox}
use Worker.{Queue, WorkerConfig, worker_config}

pub data StartError {B M : Type 0} (Q : Queue B M) : Type 0 where
  already_started : StartError Q
  schema_missing : SqlxError → StartError Q
  -- max_connections, concurrency, required
  pool_too_small : ℕ → ℕ → ℕ → StartError Q
  pgwq_build : Q.BuildError → StartError Q
  pgwq_start : Q.StartError → StartError Q

pub record StartIo {B M : Type 0} (Q : Queue B M) : Type 0 where
  pub max_connections : ℕ
  -- SELECT 1 FROM outbox.events LIMIT 0
  pub probe : Result (Unit {0}) SqlxError
  pub world : Q.World

abbrev pub u64_max : ℕ
u64_max = 2 ^ 64 - 1

-- `u64::from(concurrency).saturating_mul(2).saturating_add(2)`
unfoldable pub required_connections : ℕ → ℕ
required_connections concurrency = min (min (concurrency * 2) u64_max + 2) u64_max

-- `Some("42P01" | "3F000")`
abbrev pub is_missing_code : Str → Bool
is_missing_code code = str_eq code (str "42P01") || str_eq code (str "3F000")

module _ {B M : Type 0} {Q : Queue B M} where
  -- Every other failure of the probe is left to the queue.
  unfoldable pub check_probe : Result (Unit {0}) SqlxError → Result (Unit {0}) (StartError Q)
  check_probe (ok _) = ok tt
  check_probe (err (database (some code) text)) =
      fail_if (is_missing_code code) (schema_missing (database (some code) text))
  check_probe (err _) = ok tt

-- `StartedGuard`, and what its `drop` leaves of the flag.
pub record StartedGuard : Type 0 where
  pub armed : Bool

abbrev pub new_guard : StartedGuard
new_guard = record { armed = true }

abbrev pub disarm : StartedGuard → StartedGuard
disarm g = record g { armed = false }

abbrev pub drop : StartedGuard → Bool → Bool
drop g flag = if g.armed then false else flag

module _ {B M : Type 0} (Q : Queue B M) (empty_headers : M) (outbox : Outbox B M)
    (io : StartIo Q) where
  -- From the pool's floor to the started worker: what the guard is alive for.
  unfoldable pub start_worker : Result Q.Handle (StartError Q)
  start_worker = do
    let required = required_connections outbox.config.concurrency
    fail_if (ltb io.max_connections required)
        (pool_too_small io.max_connections outbox.config.concurrency required)
    check_probe io.probe
    worker ← map_err pgwq_build (Q.build io.world (worker_config empty_headers outbox))
    map_err pgwq_start (Q.start io.world worker)

  abbrev pub under_guard : Result Q.Handle (StartError Q) → Action Bool Q.Handle (StartError Q)
  under_guard (ok handle) flag = (ok handle, drop (disarm new_guard) flag)
  under_guard (err e) flag = (err e, drop new_guard flag)

  -- `Outbox::start`: the swap sets the flag.
  unfoldable pub start : Action Bool Q.Handle (StartError Q)
  start true = (err already_started, true)
  start false = under_guard start_worker true
