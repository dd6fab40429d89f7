-- ===== src/Runtime/Jobs.antt =====
-- What `pg_work_queue` hands to the worker and takes from it, and how a database error is turned
-- into a job error (`map_sql`, `map_mark_err` of src/runtime.rs; their logging is not modelled).
use rust_events.Base.{ℕ, ◌++◌, Str, str, if◌then◌else◌}
use rust_events.Util.{SqlxError, is_sqlx_deterministic, redact_db_error}

-- `pg_work_queue::JobContext`, as far as the code reads it.
pub record JobContext : Type 0 where
  pub attempt : ℕ
  pub max_attempts : ℕ
  pub lease_token : ℕ
  pub idempotency_key : ℕ

-- `pg_work_queue::JobError`, by the constructor that the code calls.
pub data JobError : Type 0 where
  retry_job : Str → JobError
  retry_job_in : Str → ℕ → JobError
  abort_job : Str → JobError

unfoldable pub map_sql : SqlxError → Str → JobError
map_sql e ctx =
    if is_sqlx_deterministic e
    then abort_job (ctx ++ str ": deterministic db error: " ++ redact_db_error e)
    else retry_job (ctx ++ str ": " ++ redact_db_error e)

unfoldable pub map_mark_err : SqlxError → Str → JobError
unfolding map_sql
map_mark_err e kind = map_sql e kind
