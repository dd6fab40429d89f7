-- ===== src/Runtime/Marks.antt =====
-- The four `mark_*_fenced` methods of src/runtime.rs. Each is one UPDATE under the fence
-- `status='running' AND lease_token=$3`; `now` is the statement's clock.
use rust_events.Base.{
  ℕ, Bool, false, ◌&&◌, Option, none, some, Str, str, Action, ok, err, catch, pure, ◌>>◌,
  update_where, update_passes, count_where, ◌==◌, if◌then◌else◌,
}
use rust_events.Limits.{max_last_error_bytes}
use rust_events.Util.{SqlxError, sanitize_reason, truncate_utf8}
use rust_events.Schema.{
  Db, Delivery, Wire, over, is_delivery, deliveries_check, set_updated_at, check_violation,
}
use rust_events.Schema.Status.{sent, awaiting_retry, dead, skipped, is_running}
use rust_events.Runtime.Jobs.{JobError, map_mark_err}

abbrev pub holds_token : Option ℕ → ℕ → Bool
holds_token none token = false
holds_token (some t) token = t == token

-- The WHERE clause of all four statements.
abbrev pub is_fenced : ℕ → Str → ℕ → Delivery → Bool
is_fenced event_id handler_id token d =
    is_delivery event_id handler_id d && is_running d.status && holds_token d.lease_token token

-- An UPDATE of `outbox.handler_deliveries`: refused whole if a row it writes breaks a CHECK.
unfoldable pub update_deliveries :
    {M : Type 0} → (Delivery → Bool) → (Delivery → Delivery) → Action (Db M) ℕ SqlxError
update_deliveries p f db =
    if update_passes deliveries_check p f db.deliveries
    then (
      ok (count_where p db.deliveries),
      record db { deliveries = update_where p f db.deliveries },
    )
    else (err check_violation, db)

-- `sanitize_reason`, then `truncate_utf8`.
unfoldable pub stored_reason : Str → Str
stored_reason reason = truncate_utf8 (sanitize_reason reason) max_last_error_bytes

abbrev pub set_sent : ℕ → Delivery → Delivery
set_sent now d =
    set_updated_at now
      (record d { status = sent; finished_at = some now; lease_token = none; last_error = none })

abbrev pub set_awaiting_retry : ℕ → Str → Delivery → Delivery
set_awaiting_retry now reason d =
    set_updated_at now
      (record d { status = awaiting_retry; lease_token = none; last_error = some reason })

abbrev pub set_dead : ℕ → Str → Delivery → Delivery
set_dead now reason d = set_updated_at now (record d {
  status = dead;
  finished_at = some now;
  lease_token = none;
  last_error = some reason;
})

abbrev pub set_skipped : ℕ → Str → Delivery → Delivery
set_skipped now reason d = set_updated_at now (record d {
  status = skipped;
  finished_at = some now;
  lease_token = none;
  last_error = some reason;
})

-- The affected rows are only counted for the log.
abbrev pub fenced_update :
    {M : Type 0}
    → Wire
    → Str
    → (Delivery → Bool)
    → (Delivery → Delivery)
    → Action (Db M) (Unit {0}) JobError
fenced_update wire kind p f = do
  catch (λ e. map_mark_err e kind) (over wire (update_deliveries p f))
  pure tt

module _ {M : Type 0} (wire : Wire) (now event_id : ℕ) (handler_id : Str) where
  unfoldable pub mark_sent_fenced : ℕ → Action (Db M) (Unit {0}) JobError
  mark_sent_fenced token =
      fenced_update wire (str "mark_sent") (is_fenced event_id handler_id token) (set_sent now)

  unfoldable pub mark_awaiting_retry_fenced : Str → ℕ → Action (Db M) (Unit {0}) JobError
  mark_awaiting_retry_fenced reason token =
      fenced_update wire (str "mark_retry") (is_fenced event_id handler_id token)
        (set_awaiting_retry now (stored_reason reason))

  unfoldable pub mark_dead_fenced : Str → ℕ → Action (Db M) (Unit {0}) JobError
  mark_dead_fenced reason token =
      fenced_update wire (str "mark_dead") (is_fenced event_id handler_id token)
        (set_dead now (stored_reason reason))

  unfoldable pub mark_skipped_fenced : Str → ℕ → Action (Db M) (Unit {0}) JobError
  mark_skipped_fenced reason token =
      fenced_update wire (str "mark_skipped") (is_fenced event_id handler_id token)
        (set_skipped now (stored_reason reason))
