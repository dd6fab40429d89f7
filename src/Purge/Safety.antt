-- ===== src/Purge/Safety.antt =====
-- What the purges leave alone, whatever the wire does and however they end.
use rust_events.Base.{
  ℕ, ◌<◌, ◌≡◌, refl, sym, ap, ◌∙◌, Bool, true, not, ◌&&◌, inl, inr, Bool-cases, Option-cases,
  length, count_where, All-of, count_where-le, All-delete_where, subst, Action, some, List, [], ◌∷◌,
  All, All-mono, any, select_where, delete_where, ◌==◌, ltb, HasKey, arith,
}
use rust_events.Util.{SqlxError}
use rust_events.Schema.{Db, EventRow, Delivery, Wire, reply}
use rust_events.Schema.Status.{is_active}
use rust_events.Purge.Statements.{
  is_old_delivery, same_delivery, is_done_event, is_pending_of, has_id, delete_events,
  delete_terminal_deliveries,
}
use rust_events.Purge.Cascade.{delete_where-ext}
use rust_events.Purge.Loop.{Deletes, purge_loop_keeps}
use rust_events.Purge.Rows.{
  DeliveriesKept, without_old_deliveries, delete_terminal_deliveries-Deletes,
  purge_terminal_deliveries_total,
}
use rust_events.Purge.Total.{
  HasReferences, EventsKept, kept_events, without_done_events, remaining_events, purge_events_total,
  delete_events-Deletes,
}
use rust_events.Purge.{Chrono, cutoff_from, purge_with, purge_terminal_deliveries, purge_events}

-- The deliveries that a worker has yet to settle.
abbrev pub pending : List Delivery → List Delivery
pending = select_where (λ d. is_active d.status)

pending-without_old :
    (cutoff : ℕ) (ds : List Delivery)
    → pending (delete_where (is_old_delivery cutoff) ds) ≡ pending ds
unfolding is_old_delivery
pending-without_old cutoff [] = refl
pending-without_old cutoff (d ∷ ds) = ground (arith, pending-without_old cutoff ds)

pending_self :
    (ds : List Delivery)
    → All (λ d. is_active d.status ≡ true → any (is_pending_of d.event_id) ds ≡ true) ds
pending_self [] = tt
pending_self (d ∷ ds) =
    (λ e. ground (arith, e), All-mono _ _ ds (λ x h e. ground (arith, h e)) (pending_self ds))

pending-select_where :
    (q : Delivery → Bool) (ds : List Delivery)
    → All (λ d. is_active d.status ≡ true → q d ≡ true) ds
    → pending (select_where q ds) ≡ pending ds
pending-select_where q [] h = refl
pending-select_where q (d ∷ ds) h = ground (arith, h.0, pending-select_where q ds h.1)

All-and {κ μ} :
    {A : Type 0} (P : A → Type κ) (Q : A → Type μ) (xs : List A)
    → All P xs
    → All Q xs
    → All (λ x. P x × Q x) xs
All-and P Q [] h k = tt
All-and P Q (x ∷ xs) h k = ((h.0, k.0), All-and P Q xs h.1 k.1)

module _ {M : Type 0} where
  -- A statement that deletes what remains keeps its invariant.
  Deletes_keeps {ℓ} :
      (delete : Action (Db M) ℕ SqlxError) (Inv : Db M → Type ℓ) (remaining : Db M → ℕ)
      → Deletes delete Inv remaining
      → (db : Db M) → Inv db
      → Inv (delete db).1
  Deletes_keeps delete Inv remaining deletes db v =
      let (n, db', runs, v', _, _) = deletes db v in subst (λ r. Inv r.1) (sym runs) v'

  -- An event with a pending delivery is not done.
  pending-not_done :
      (cutoff : ℕ) (ds : List Delivery) (es : List (EventRow M)) (i : ℕ)
      → any (is_pending_of i) ds ≡ true
      → has_id (delete_where (is_done_event cutoff ds) es) i ≡ has_id es i
  unfolding is_done_event
  pending-not_done cutoff ds [] i h = refl
  pending-not_done cutoff ds (e ∷ es) i h = elim (Bool-cases (e.id == i)) [
    | inl same ↦
        let here : e.id ≡ i = ground (arith, same) in
        let held : any (is_pending_of e.id) ds ≡ true = rw here h in ground (arith, same, held)
    | inr other ↦ ground (arith, other, pending-not_done cutoff ds es i h)
  ]

  -- The pending deliveries survive the deletion of the events that are done.
  pending-without_done :
      (cutoff : ℕ) (db : Db M)
      → HasReferences db
      → pending (without_done_events cutoff db).deliveries ≡ pending db.deliveries
  pending-without_done cutoff db refs =
      pending-select_where (λ d. has_id (kept_events cutoff db) d.event_id) db.deliveries
        (All-mono _ _ db.deliveries
          (λ d (h, r) e. pending-not_done cutoff db.deliveries db.events d.event_id (h e) ∙ r)
          (All-and _ _ db.deliveries (pending_self db.deliveries) refs.deliveries_refer))

  -- The same of one statement.
  pub delete_events-pending :
      (cutoff : ℕ) (db : Db M)
      → HasReferences db
      → pending (delete_events cutoff db).1.deliveries ≡ pending db.deliveries
  delete_events-pending cutoff db refs =
      let (refs', kept) =
        Deletes_keeps (delete_events cutoff) (EventsKept cutoff db) (remaining_events cutoff)
          (delete_events-Deletes cutoff db) db (refs, refl) in
      sym (pending-without_done cutoff _ refs')
      ∙ ap (λ s. pending s.deliveries) kept
      ∙ pending-without_done cutoff db refs

  pub delete_terminal_deliveries-pending :
      (cutoff : ℕ) (db : Db M)
      → HasKey same_delivery db.deliveries
      → pending (delete_terminal_deliveries cutoff db).1.deliveries ≡ pending db.deliveries
  delete_terminal_deliveries-pending cutoff db key =
      let (_, kept) =
        Deletes_keeps (delete_terminal_deliveries cutoff) (DeliveriesKept cutoff db) _
          (delete_terminal_deliveries-Deletes cutoff db) db (key, refl) in
      sym (pending-without_old cutoff (delete_terminal_deliveries cutoff db).1.deliveries)
      ∙ ap (λ s. pending s.deliveries) kept
      ∙ pending-without_old cutoff db.deliveries

module _ {M : Type 0} (chrono : Chrono) (fuel : ℕ) (wires : ℕ → Wire) (now older_than : ℕ)
    (db : Db M) where
  -- However `purge_events` ends, by an answer, an error of the database or a panic, and whichever of
  -- its calls are lost: in tables whose event ids are keys and whose rows refer to events, every
  -- delivery that is queued, running or awaiting a retry is there as it was, and every row left still
  -- refers to an event.
  pub purge_events_keeps_pending :
      HasReferences db
      → let db' = (purge_events chrono fuel wires now older_than db).1 in
        (pending db'.deliveries ≡ pending db.deliveries) × HasReferences db'
  unfolding purge_events
  purge_events_keeps_pending refs = elim (Option-cases (cutoff_from chrono now older_than)) [
    | inl out ↦ rw (out, purge_with) (refl, refs)
    | inr (cutoff, e) ↦
        let (refs', kept) =
          purge_loop_keeps (delete_events cutoff) (EventsKept cutoff db)
            (Deletes_keeps (delete_events cutoff) (EventsKept cutoff db) (remaining_events cutoff)
              (delete_events-Deletes cutoff db))
            wires fuel 0 db (refs, refl) in
        rw (e, purge_with)
          (
            sym (pending-without_done cutoff _ refs')
                ∙ ap (λ s. pending s.deliveries) kept
                ∙ pending-without_done cutoff db refs,
            refs',
          )
  ]

  -- However `purge_terminal_deliveries` ends, only deliveries that are sent, skipped or dead and
  -- finished before the cutoff are gone: without those, all tables are as they were. (The ids of the
  -- deliveries are keys, and chrono can represent the cutoff.)
  pub purge_terminal_deliveries_keeps :
      (cutoff : ℕ)
      → cutoff_from chrono now older_than ≡ some cutoff
      → HasKey same_delivery db.deliveries
      → without_old_deliveries cutoff
          (purge_terminal_deliveries chrono fuel wires now older_than db).1
        ≡ without_old_deliveries cutoff db
  unfolding purge_terminal_deliveries
  purge_terminal_deliveries_keeps cutoff e key =
      rw (e, purge_with)
        (purge_loop_keeps (delete_terminal_deliveries cutoff) (DeliveriesKept cutoff db)
          (Deletes_keeps (delete_terminal_deliveries cutoff) (DeliveriesKept cutoff db) _
            (delete_terminal_deliveries-Deletes cutoff db))
          wires fuel 0 db (key, refl)).1

-- A delivery that is over is not in the way of its event.
any-without_old :
    (cutoff i : ℕ) (ds : List Delivery)
    → any (is_pending_of i) (delete_where (is_old_delivery cutoff) ds) ≡ any (is_pending_of i) ds
unfolding is_old_delivery
any-without_old cutoff i [] = refl
any-without_old cutoff i (d ∷ ds) = ground (arith, any-without_old cutoff i ds)

module _ {M : Type 0} (chrono : Chrono) (fuel now older_than cutoff : ℕ)
    (fuel' now' older_than' cutoff' : ℕ) (db : Db M) where
  kept_events-without_old :
      kept_events cutoff' (without_old_deliveries cutoff db) ≡ kept_events cutoff' db
  unfolding is_done_event
  kept_events-without_old = delete_where-ext _ _ db.events (
      All-of _ db.events (λ e.
        ap (λ b. ltb e.created_at cutoff' && not b) (any-without_old cutoff e.id db.deliveries)))

  without_old-HasReferences : HasReferences db → HasReferences (without_old_deliveries cutoff db)
  without_old-HasReferences refs = record {
    key = refs.key;
    deliveries_refer =
        All-delete_where _ (is_old_delivery cutoff) db.deliveries refs.deliveries_refer;
    keys_refer = refs.keys_refer;
  }

  -- Whether `purge_terminal_deliveries` runs before it or not, `purge_events` deletes the same events.
  -- (Both cutoffs can be represented, the server answers, ids are keys, rows refer to events, and the
  -- fuel is enough.)
  pub purge_events_order :
      cutoff_from chrono now older_than ≡ some cutoff
      → cutoff_from chrono now' older_than' ≡ some cutoff'
      → HasKey same_delivery db.deliveries
      → HasReferences db
      → count_where (is_old_delivery cutoff) db.deliveries < fuel
      → length db.events < fuel'
      → let first = (purge_terminal_deliveries chrono fuel (λ _. reply) now older_than db).1 in
        (purge_events chrono fuel' (λ _. reply) now' older_than' first).1.events
        ≡ (purge_events chrono fuel' (λ _. reply) now' older_than' db).1.events
  purge_events_order e e' key refs enough enough' =
      let cleared = without_old_deliveries cutoff db in
      let deliveries_first =
        purge_terminal_deliveries_total chrono fuel now older_than cutoff db e key enough in
      let after =
        purge_events_total chrono fuel' now' older_than' cutoff' cleared e'
          (without_old-HasReferences refs)
          (omega (arith, count_where-le (is_done_event cutoff' cleared.deliveries) db.events)) in
      let alone =
        purge_events_total chrono fuel' now' older_than' cutoff' db e' refs
          (omega (arith, count_where-le (is_done_event cutoff' db.deliveries) db.events)) in
      rw (deliveries_first, after, alone) kept_events-without_old
