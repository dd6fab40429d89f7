-- ===== src/Runtime/Rows.antt =====
-- One row under the claim and the marks of src/runtime.rs, against the CHECKs.
use rust_events.Base.{ℕ, ◌≤◌, ◌≡◌, true, false, Str, len, arith}
use rust_events.Util.Truncate.{len-truncate_utf8-le}
use rust_events.Schema.{Delivery, deliveries_check}
use rust_events.Schema.Status.{is_terminal, is_running}
use rust_events.Schema.Valid.{IsValid}
use rust_events.Runtime.Marks.{stored_reason, set_sent, set_awaiting_retry, set_dead, set_skipped}
use rust_events.Runtime.Claim.{set_running}

pub set_running-IsValid :
    (now attempt token : ℕ) (d : Delivery)
    → IsValid now d
    → is_terminal d.status ≡ false
    → IsValid now (set_running now attempt token d)
unfolding deliveries_check
set_running-IsValid now attempt token d v h = ground arith

pub len-stored_reason-le : (reason : Str) → len (stored_reason reason) ≤ 8192
unfolding stored_reason
len-stored_reason-le reason = len-truncate_utf8-le _ 8192

module _ (now : ℕ) (d : Delivery) (v : IsValid now d) (h : is_running d.status ≡ true) where
  pub set_sent-IsValid : IsValid now (set_sent now d)
  unfolding deliveries_check
  set_sent-IsValid = ground arith

  module _ (reason : Str) (short : len reason ≤ 8192) where
    pub set_awaiting_retry-IsValid : IsValid now (set_awaiting_retry now reason d)
    unfolding deliveries_check
    set_awaiting_retry-IsValid = ground arith

    pub set_dead-IsValid : IsValid now (set_dead now reason d)
    unfolding deliveries_check
    set_dead-IsValid = ground arith

    pub set_skipped-IsValid : IsValid now (set_skipped now reason d)
    unfolding deliveries_check
    set_skipped-IsValid = ground arith
