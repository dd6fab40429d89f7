-- ===== src/Purge/Total.antt =====
-- `purge_events`, whole.
use rust_events.Base.{
  ℕ, ◌<◌, ◌≡◌, refl, sym, subst, ◌∙◌, false, some, List, All, ok, count_where, select_where,
  delete_where, delete_where_of_count, HasKey, victims, among, chunk_lem, All-delete_where, arith,
}
use rust_events.Limits.{purge_chunk_size}
use rust_events.Schema.{Db, EventRow, Delivery, DispatchKey, reply}
use rust_events.Purge.Statements.{is_done_event, same_event, event_first, has_id, delete_events}
use rust_events.Purge.Cascade.{
  AreReferenced, left-has_id, delete_where-ext, count_where-ext, done-cascade,
  cascade-AreReferenced, select_where-cascade, select_where_all,
}
use rust_events.Purge.Loop.{Deletes, purge_loop_lem}
use rust_events.Purge.{Chrono, finished, cutoff_from, purge_events}

-- The primary key of the events and the two foreign keys.
pub record HasReferences {M : Type 0} (db : Db M) : Type 0 where
  pub key : HasKey same_event db.events
  pub deliveries_refer : AreReferenced (λ (d : Delivery). d.event_id) db.events db.deliveries
  pub keys_refer : AreReferenced (λ (k : DispatchKey). k.event_id) db.events db.dispatch_keys

module _ {M : Type 0} (cutoff : ℕ) where
  -- The events that stay.
  abbrev pub kept_events : Db M → List (EventRow M)
  kept_events db = delete_where (is_done_event cutoff db.deliveries) db.events

  -- Without the events that are done, and without what refers to them.
  abbrev pub without_done_events : Db M → Db M
  without_done_events db = record db {
    events = kept_events db;
    deliveries = select_where (λ d. has_id (kept_events db) d.event_id) db.deliveries;
    dispatch_keys = select_where (λ k. has_id (kept_events db) k.event_id) db.dispatch_keys;
  }

  abbrev pub EventsKept : Db M → Db M → Type 0
  EventsKept db0 db = HasReferences db × (without_done_events db ≡ without_done_events db0)

  module _ (db : Db M) where
    abbrev vs : List (EventRow M)
    vs = victims event_first purge_chunk_size (is_done_event cutoff db.deliveries) db.events

    abbrev next : Db M
    next = record db {
      events = delete_where (among same_event vs) db.events;
      deliveries = delete_where (λ d. has_id vs d.event_id) db.deliveries;
      dispatch_keys = delete_where (λ k. has_id vs k.event_id) db.dispatch_keys;
    }

    kept_same : HasKey same_event db.events → kept_events next ≡ kept_events db
    kept_same key =
        let (_, same, _, _) =
          chunk_lem same_event event_first purge_chunk_size (is_done_event cutoff db.deliveries)
            (λ e. ground arith) db.events key in
        delete_where-ext _ _ next.events
          (done-cascade cutoff vs db.deliveries next.events (left-has_id vs db.events))
        ∙ same

    kept_missed : HasKey same_event db.events → All (λ e. has_id vs e.id ≡ false) (kept_events db)
    kept_missed key = subst (All (λ e. has_id vs e.id ≡ false)) (kept_same key) (
        All-delete_where _ (is_done_event cutoff next.deliveries) next.events
          (left-has_id vs db.events))

    next-HasReferences : HasReferences db → HasReferences next
    next-HasReferences refs =
        let (key, _, _, _) =
          chunk_lem same_event event_first purge_chunk_size (is_done_event cutoff db.deliveries)
            (λ e. ground arith) db.events refs.key in
        record {
          key = key;
          deliveries_refer =
              cascade-AreReferenced _ vs db.events db.deliveries refs.deliveries_refer;
          keys_refer = cascade-AreReferenced _ vs db.events db.dispatch_keys refs.keys_refer;
        }

    next_same : HasKey same_event db.events → without_done_events next ≡ without_done_events db
    next_same key =
        let fe = kept_events db in
        rw (
          kept_same key,
          select_where-cascade (λ (d : Delivery). d.event_id) vs fe db.deliveries (kept_missed key),
          select_where-cascade (λ (k : DispatchKey). k.event_id) vs fe db.dispatch_keys
              (kept_missed key),
        )

  abbrev pub remaining_events : Db M → ℕ
  remaining_events db = count_where (is_done_event cutoff db.deliveries) db.events

  pub delete_events-Deletes :
      (db0 : Db M) → Deletes (delete_events cutoff) (EventsKept db0) remaining_events
  unfolding delete_events
  delete_events-Deletes db0 db (refs, kept) =
      let (_, _, counted, ends) =
        chunk_lem same_event event_first purge_chunk_size (is_done_event cutoff db.deliveries)
          (λ e. ground arith) db.events refs.key in
      let same_count = count_where-ext _ _ (next db).events (
        done-cascade cutoff (vs db) db.deliveries (next db).events
          (left-has_id (vs db) db.events)) in
      (
        _,
        next db,
        refl,
        (next-HasReferences db refs, next_same db refs.key ∙ kept),
        rw same_count counted,
        λ short. same_count ∙ ends short,
      )

  nothing_done :
      (db : Db M) → HasReferences db → remaining_events db ≡ 0 → without_done_events db ≡ db
  nothing_done db refs none_left =
      let all = delete_where_of_count (is_done_event cutoff db.deliveries) db.events none_left in
      rw (
        all,
        select_where_all (λ (d : Delivery). d.event_id) db.events db.deliveries
            refs.deliveries_refer,
        select_where_all (λ (k : DispatchKey). k.event_id) db.events db.dispatch_keys
            refs.keys_refer,
      )

-- Given a cutoff that chrono can represent, answers from the server, event ids that are keys, rows
-- that refer to events, and fuel for the events, `purge_events` ends and returns the number of
-- events that were created before the cutoff and have no delivery that is queued, running or
-- awaiting a retry. Exactly these are gone, and of the deliveries and the keys exactly those of
-- events that are gone.
pub purge_events_total :
    {M : Type 0} (chrono : Chrono) (fuel now older_than cutoff : ℕ) (db : Db M)
    → cutoff_from chrono now older_than ≡ some cutoff
    → HasReferences db
    → remaining_events cutoff db < fuel
    → purge_events chrono fuel (λ _. reply) now older_than db
      ≡ (finished (ok (remaining_events cutoff db)), without_done_events cutoff db)
unfolding purge_events
purge_events_total chrono fuel now older_than cutoff db in_range refs enough = rw in_range (
    purge_loop_lem (delete_events cutoff) (EventsKept cutoff db) (remaining_events cutoff)
      (without_done_events cutoff db) (delete_events-Deletes cutoff db)
      (λ s (r, kept) none_left. sym (nothing_done cutoff s r none_left) ∙ kept) fuel db (refs, refl)
      enough)
