-- ===== src/Builder/ConfigBounds.antt =====
-- When a configuration is accepted.
use rust_events.Base.{◌≤◌, ◌<◌, ◌≡◌, ◌↔◌, ok, arith}
use rust_events.Handler.{ms}
use rust_events.Builder.Config.{OutboxConfig, build_config}

-- `OutboxConfigBuilder::build` returns its configuration exactly when there is at least one
-- worker slot and one attempt, the handler timeout is below the lease timeout, and it is above
-- twice the clean-up budget of 200 ms.
pub build_config_iff :
    {B : Type 0} (cfg : OutboxConfig B)
    → (build_config cfg ≡ ok cfg) ↔ (
        (1 ≤ cfg.concurrency)
        × (1 ≤ cfg.max_attempts)
        × (cfg.handler_timeout < cfg.lease_timeout)
        × (ms 400 < cfg.handler_timeout))
unfolding build_config
build_config_iff cfg = ground arith
