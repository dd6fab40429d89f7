-- ===== src/Purge/Statements.antt =====
-- The three DELETE statements of src/purge.rs. Each picks its victims, the oldest first, and deletes
-- the rows with their keys; its value is the number of rows. What refers to a deleted event goes
-- with it (ON DELETE CASCADE of the migration).
use rust_events.Base.{
  ℕ, Bool, false, not, ◌&&◌, Option, none, some, List, Action, ok, get_or, any, ltb, leb, ◌==◌,
  str_eq, count_where, delete_where, victims, among,
}
use rust_events.Limits.{purge_chunk_size}
use rust_events.Util.{SqlxError}
use rust_events.Schema.{Db, EventRow, DispatchKey, Delivery}
use rust_events.Schema.Status.{is_terminal, is_active}

-- `at < cutoff`, which is not true of NULL.
abbrev pub before : ℕ → Option ℕ → Bool
before cutoff none = false
before cutoff (some at) = ltb at cutoff

-- The WHERE clause of `purge_terminal_deliveries`.
unfoldable pub is_old_delivery : ℕ → Delivery → Bool
is_old_delivery cutoff d = is_terminal d.status && before cutoff d.finished_at

abbrev pub same_delivery : Delivery → Delivery → Bool
same_delivery v d = v.id == d.id

abbrev pub finished_first : Delivery → Delivery → Bool
finished_first d e = leb (get_or d.finished_at 0) (get_or e.finished_at 0)

-- The WHERE clause of `purge_dispatch_keys`.
unfoldable pub is_old_key : ℕ → DispatchKey → Bool
is_old_key cutoff k = ltb k.created_at cutoff

abbrev pub same_key : DispatchKey → DispatchKey → Bool
same_key v k = str_eq v.tenant_id k.tenant_id && str_eq v.idempotency_key k.idempotency_key

abbrev pub created_first : DispatchKey → DispatchKey → Bool
created_first k j = leb k.created_at j.created_at

-- `hd.event_id = e.id AND hd.status IN ('queued','running','awaiting_retry')`
abbrev pub is_pending_of : ℕ → Delivery → Bool
is_pending_of event_id hd = hd.event_id == event_id && is_active hd.status

module _ {M : Type 0} where
  unfoldable pub delete_terminal_deliveries : ℕ → Action (Db M) ℕ SqlxError
  delete_terminal_deliveries cutoff db =
      let vs = victims finished_first purge_chunk_size (is_old_delivery cutoff) db.deliveries in
      let hit = among same_delivery vs in
      (
        ok (count_where hit db.deliveries),
        record db { deliveries = delete_where hit db.deliveries },
      )

  unfoldable pub delete_dispatch_keys : ℕ → Action (Db M) ℕ SqlxError
  delete_dispatch_keys cutoff db =
      let vs = victims created_first purge_chunk_size (is_old_key cutoff) db.dispatch_keys in
      let hit = among same_key vs in
      (
        ok (count_where hit db.dispatch_keys),
        record db { dispatch_keys = delete_where hit db.dispatch_keys },
      )

  -- The WHERE clause of `purge_events`.
  unfoldable pub is_done_event : ℕ → List Delivery → EventRow M → Bool
  is_done_event cutoff deliveries e =
      ltb e.created_at cutoff && not (any (is_pending_of e.id) deliveries)

  abbrev pub same_event : EventRow M → EventRow M → Bool
  same_event v e = v.id == e.id

  abbrev pub event_first : EventRow M → EventRow M → Bool
  event_first e f = leb e.created_at f.created_at

  abbrev pub has_id : List (EventRow M) → ℕ → Bool
  has_id vs event_id = any (λ v. v.id == event_id) vs

  unfoldable pub delete_events : ℕ → Action (Db M) ℕ SqlxError
  delete_events cutoff db =
      let vs =
        victims event_first purge_chunk_size (is_done_event cutoff db.deliveries) db.events in
      let hit = among same_event vs in
      (
        ok (count_where hit db.events),
        record db {
          events = delete_where hit db.events;
          deliveries = delete_where (λ d. has_id vs d.event_id) db.deliveries;
          dispatch_keys = delete_where (λ k. has_id vs k.event_id) db.dispatch_keys;
        },
      )
