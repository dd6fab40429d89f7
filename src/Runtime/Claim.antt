-- ===== src/Runtime/Claim.antt =====
-- Step 2 of `handle_envelope` in src/runtime.rs: the statement that claims a delivery. Its CTEs
-- `locked` and `updated` see the tables as they were, and so does its SELECT.
use rust_events.Base.{
  ℕ, Bool, not, ◌&&◌, Option, none, some, List, Str, Action, ok, err, select_where, update_where,
  update_passes, first, any, get_or, max, leb, ◌==◌, if◌then◌else◌,
}
use mathlib.Core.Option
use rust_events.Util.{SqlxError, JsonValue}
use rust_events.Handler.{Bytes}
use rust_events.Builder.{i32_max}
use rust_events.Schema.{
  Db, EventRow, DispatchKey, Delivery, is_delivery, deliveries_check, set_updated_at,
  check_violation,
}
use rust_events.Schema.Status.{running, as_str, is_terminal}

-- The struct `Row`.
pub record Row (M : Type 0) : Type 0 where
  pub payload : Bytes
  pub tenant_id : Str
  pub producer_bc : Str
  pub headers : JsonValue M
  pub dispatch_idempotency_key : Option Str
  pub prev_status : Option Str
  pub did_update : Bool

-- `i32::try_from(attempt).unwrap_or(i32::MAX)`
abbrev pub clamp_i32 : ℕ → ℕ
clamp_i32 n = if leb n i32_max then n else i32_max

-- The rows that `updated` writes.
abbrev pub is_claimable : ℕ → Str → Delivery → Bool
is_claimable event_id handler_id d = is_delivery event_id handler_id d && not (is_terminal d.status)

-- Its SET clause.
abbrev pub set_running : ℕ → ℕ → ℕ → Delivery → Delivery
set_running now attempt token d = set_updated_at now (record d {
  status = running;
  lease_token = some token;
  attempts = max (max d.attempts attempt) 1;
  last_attempted_at = some now;
  first_attempted_at = some (get_or d.first_attempted_at now);
  last_error = none;
})

-- The LEFT JOIN on `dispatch_keys.event_id`, which is UNIQUE.
abbrev pub key_of_event : ℕ → List DispatchKey → Option Str
key_of_event event_id keys =
    Option.map (λ (k : DispatchKey). k.idempotency_key)
      (first (select_where (λ k. k.event_id == event_id) keys))

-- `(SELECT status::text FROM locked)`
abbrev pub locked_status : ℕ → Str → List Delivery → Option Str
locked_status event_id handler_id ds =
    Option.map (λ (d : Delivery). as_str d.status)
      (first (select_where (is_delivery event_id handler_id) ds))

module _ {M : Type 0} where
  abbrev pub claimed_row : ℕ → Str → Db M → EventRow M → Row M
  claimed_row event_id handler_id db e = record {
    payload = e.payload;
    tenant_id = e.tenant_id;
    producer_bc = e.producer_bc;
    headers = e.headers;
    dispatch_idempotency_key = key_of_event event_id db.dispatch_keys;
    prev_status = locked_status event_id handler_id db.deliveries;
    did_update = any (is_claimable event_id handler_id) db.deliveries;
  }

  -- The final SELECT.
  abbrev pub found_row : ℕ → Str → Db M → Option (Row M)
  found_row event_id handler_id db =
      Option.map (claimed_row event_id handler_id db)
        (first (select_where (λ e. e.id == event_id) db.events))

  -- `attempt` and `token` are the values bound to `$3` and `$4`.
  unfoldable pub claim_delivery : ℕ → ℕ → Str → ℕ → ℕ → Action (Db M) (Option (Row M)) SqlxError
  claim_delivery now event_id handler_id attempt token db =
      if update_passes deliveries_check claimable claimed db.deliveries
      then (
        ok (found_row event_id handler_id db),
        record db { deliveries = update_where claimable claimed db.deliveries },
      )
      else (err check_violation, db)
    where
      claimable : Delivery → Bool
      claimable = is_claimable event_id handler_id

      claimed : Delivery → Delivery
      claimed = set_running now attempt token
