-- ===== src/Builder/Config.antt =====
-- `OutboxConfig` and `OutboxConfigBuilder` of src/builder.rs. The builder is the configuration
-- that it wraps. The defaults of `pg_work_queue`'s two policies are parameters.
use rust_events.Base.{ℕ, ◌*◌, Str, str, Result, ok, leb, ◌==◌}
use rust_events.Base.Try.{◌>>◌, fail_if}
use rust_events.Handler.{ms, secs}
use rust_events.Builder.Errors.{
  BuildError, config_invalid, concurrency_zero, max_attempts_zero, timeout_not_below_lease,
  timeout_below_floor,
}

-- `HANDLER_CLEANUP_BUDGET` of src/runtime.rs.
abbrev pub handler_cleanup_budget : ℕ
handler_cleanup_budget = ms 200

pub data DecodeStrategy : Type 0 where
  retry_decode abort_decode : DecodeStrategy

-- `pg_work_queue::PanicPolicy`
pub data PanicPolicy : Type 0 where
  retry_panic dead_panic : PanicPolicy

pub record OutboxConfig (B : Type 0) : Type 0 where
  pub poll_interval : ℕ
  pub concurrency : ℕ
  pub max_attempts : ℕ
  pub lease_timeout : ℕ
  pub handler_timeout : ℕ
  pub retry_backoff : B
  pub panic_policy : PanicPolicy
  pub decode_error_strategy : DecodeStrategy

module _ {B : Type 0} where
  -- `OutboxConfig::default`, and so `OutboxConfig::builder`
  unfoldable pub default : B → PanicPolicy → OutboxConfig B
  default backoff policy = record {
    poll_interval = ms 500;
    concurrency = 16;
    max_attempts = 5;
    lease_timeout = secs 300;
    handler_timeout = secs 240;
    retry_backoff = backoff;
    panic_policy = policy;
    decode_error_strategy = retry_decode;
  }

  unfoldable pub poll_interval : OutboxConfig B → ℕ → OutboxConfig B
  poll_interval cfg d = record cfg { poll_interval = d }

  unfoldable pub concurrency : OutboxConfig B → ℕ → OutboxConfig B
  concurrency cfg n = record cfg { concurrency = n }

  unfoldable pub max_attempts : OutboxConfig B → ℕ → OutboxConfig B
  max_attempts cfg n = record cfg { max_attempts = n }

  unfoldable pub lease_timeout : OutboxConfig B → ℕ → OutboxConfig B
  lease_timeout cfg d = record cfg { lease_timeout = d }

  unfoldable pub handler_timeout : OutboxConfig B → ℕ → OutboxConfig B
  handler_timeout cfg d = record cfg { handler_timeout = d }

  unfoldable pub retry_backoff : OutboxConfig B → B → OutboxConfig B
  retry_backoff cfg p = record cfg { retry_backoff = p }

  unfoldable pub panic_policy : OutboxConfig B → PanicPolicy → OutboxConfig B
  panic_policy cfg p = record cfg { panic_policy = p }

  unfoldable pub decode_error_strategy : OutboxConfig B → DecodeStrategy → OutboxConfig B
  decode_error_strategy cfg s = record cfg { decode_error_strategy = s }

-- Fails on `d <= 2 * HANDLER_CLEANUP_BUDGET`.
unfoldable pub handler_timeout_floor_check : ℕ → Str → Result (Unit {0}) BuildError
handler_timeout_floor_check d label =
    let min = handler_cleanup_budget * 2 in
    fail_if (leb d min) (config_invalid (timeout_below_floor label d min))

-- `OutboxConfigBuilder::build`
unfoldable pub build_config : {B : Type 0} → OutboxConfig B → Result (OutboxConfig B) BuildError
unfolding handler_timeout_floor_check
build_config cfg = do
  fail_if (cfg.concurrency == 0) (config_invalid concurrency_zero)
  fail_if (cfg.max_attempts == 0) (config_invalid max_attempts_zero)
  fail_if (leb cfg.lease_timeout cfg.handler_timeout) (config_invalid timeout_not_below_lease)
  handler_timeout_floor_check cfg.handler_timeout (str "OutboxConfig")
  ok cfg
