-- ===== src/System/Inserts.antt =====
-- The INSERT statements of `Outbox::dispatch` keep the tables sound.
use rust_events.Base.{
  ℕ, suc, ◌+◌, ◌≤◌, ◌≡◌, subst, refl, sym, true, false, inl, inr, Bool-cases, Result-cases, List,
  [], ◌∷◌, ◌++◌, Str, str_eq_iff, ok, any, length, ◌==◌, ◌||◌, All-mono, All-append,
  AreDistinct-append, All-none, Keeps, arith,
}
use rust_events.Util.{JsonValue}
use rust_events.Schema.{Db, EventRow, Delivery, deliveries_check, is_delivery, events_check}
use rust_events.Dispatch.Transaction.{
  queued_delivery, fan_out, insert_deliveries, insert_event, insert_event_and_deliveries, has_nul,
  event_texts,
}
use rust_events.Purge.Statements.{has_id, same_delivery}
use rust_events.System.Sound.{same_row, DeliveriesAreSound, IsSound}

module _ {M : Type 0} (now at : ℕ) (past : at ≤ now) (es : List (EventRow M)) where
  -- A new delivery of an event that is there, under the next id.
  insert-DeliveriesAreSound :
      (next event_id : ℕ) (h : Str) (ds : List Delivery)
      → has_id es event_id ≡ true
      → deliveries_check (queued_delivery at event_id next h) ≡ true
      → any (is_delivery event_id h) ds ≡ false
      → DeliveriesAreSound now next es ds
      → DeliveriesAreSound now (suc next) es (ds ++ queued_delivery at event_id next h ∷ [])
  insert-DeliveriesAreSound next event_id h ds here check fresh s =
      let r = queued_delivery at event_id next h in
      record {
        valid = All-append _ ds (r ∷ []) s.valid (
          record {
            checked = check;
            created_by = omega arith;
            updated_by = omega arith;
            first_by = tt;
            last_by = tt;
          },
          tt,
        );
        ids_below =
            All-append _ ds (r ∷ []) (All-mono _ _ ds (λ d lt. omega (arith, lt)) s.ids_below)
              (omega arith, tt);
        ids_distinct =
            AreDistinct-append same_delivery ds r s.ids_distinct
              (All-mono _ _ ds (λ d lt. ground (arith, lt)) s.ids_below);
        rows_distinct = AreDistinct-append same_row ds r s.rows_distinct (
            All-mono _ _ ds
              (λ d n. ground (arith, n, str_eq_iff d.handler_id h, str_eq_iff h d.handler_id))
              (All-none (is_delivery event_id h) ds fresh));
        referring = All-append _ ds (r ∷ []) s.referring (here, tt);
      }

  pub insert_deliveries-DeliveriesAreSound :
      (hs : List Str) (next event_id : ℕ) (ds ds' : List Delivery)
      → has_id es event_id ≡ true
      → DeliveriesAreSound now next es ds
      → insert_deliveries (fan_out at event_id next hs) ds ≡ ok ds'
      → DeliveriesAreSound now (next + length hs) es ds'
  unfolding insert_deliveries
  insert_deliveries-DeliveriesAreSound [] next event_id ds ds' here s e =
      let none_added : ds ≡ ds' = cc e in
      let same_next : next ≡ next + 0 = omega arith in
      subst (λ xs. DeliveriesAreSound now (next + 0) es xs) none_added
        (subst (λ n. DeliveriesAreSound now n es ds) same_next s)
  insert_deliveries-DeliveriesAreSound (h ∷ hs) next event_id ds ds' here s e =
      elim (Bool-cases (deliveries_check (queued_delivery at event_id next h))) [
        | inr bad ↦ absurd (ground (arith, bad, e))
        | inl good ↦ elim (Bool-cases (any (is_delivery event_id h) ds)) [
          | inl taken ↦ absurd (ground (arith, good, taken, e))
          | inr fresh ↦
              let rest =
                insert_deliveries-DeliveriesAreSound hs (suc next) event_id
                  (ds ++ queued_delivery at event_id next h ∷ []) ds' here
                  (insert-DeliveriesAreSound next event_id h ds here good fresh s)
                  (rw (good, fresh) at e) in
              let counted : suc next + length hs ≡ next + suc (length hs) = omega arith in
              subst (λ n. DeliveriesAreSound now n es ds') counted rest
        ]
      ]

pub any_id_swap :
    {R : Type 0} (ref : R → ℕ) (rs : List R) (i : ℕ)
    → any (λ r. ref r == i) rs ≡ false
    → any (λ r. i == ref r) rs ≡ false
any_id_swap ref [] i h = refl
any_id_swap ref (r ∷ rs) i h = ground (arith, h, any_id_swap ref rs i)

module _ {M : Type 0} (now : ℕ) where
  -- One more event.
  with_event :
      (row : EventRow M) (db : Db M)
      → any (λ x. x.id == row.id) db.events ≡ false
      → IsSound now db
      → IsSound now (record db { events = row ∷ db.events })
  with_event row db fresh s = record {
    deliveries = record {
      valid = s.deliveries.valid;
      ids_below = s.deliveries.ids_below;
      ids_distinct = s.deliveries.ids_distinct;
      rows_distinct = s.deliveries.rows_distinct;
      referring = All-mono _ _ db.deliveries (λ d h. ground (arith, h)) s.deliveries.referring;
    };
    events_distinct =
        (any_id_swap (λ (x : EventRow M). x.id) db.events row.id fresh, s.events_distinct);
    keys_distinct = s.keys_distinct;
    key_events_distinct = s.key_events_distinct;
  }

  abbrev with_rows : EventRow M → List Str → List Delivery → Db M → Db M
  with_rows row ids ds db = record db {
    events = row ∷ db.events;
    deliveries = ds;
    next_delivery_id = db.next_delivery_id + length ids;
  }

  with_rows-IsSound :
      (row : EventRow M) (ids : List Str) (ds : List Delivery) (db : Db M)
      → any (λ x. x.id == row.id) db.events ≡ false
      → IsSound now db
      → row.created_at ≤ now
      → insert_deliveries (fan_out row.created_at row.id db.next_delivery_id ids) db.deliveries
        ≡ ok ds
      → IsSound now (with_rows row ids ds db)
  with_rows-IsSound row ids ds db fresh s past e =
      let s' = with_event row db fresh s in
      record {
        deliveries =
            insert_deliveries-DeliveriesAreSound now row.created_at past (row ∷ db.events) ids
              db.next_delivery_id row.id db.deliveries ds (ground arith) s'.deliveries e;
        events_distinct = s'.events_distinct;
        keys_distinct = s'.keys_distinct;
        key_events_distinct = s'.key_events_distinct;
      }

  pub insert_event-Keeps :
      (octets : JsonValue M → ℕ) (row : EventRow M) → Keeps (IsSound now) (insert_event octets row)
  unfolding insert_event
  insert_event-Keeps octets row db s = elim (Bool-cases (has_nul (event_texts row))) [
    | inl nul ↦ rw nul s
    | inr clean ↦ elim (Bool-cases (events_check octets row)) [
      | inr bad ↦ rw (clean, bad) s
      | inl good ↦ elim (Bool-cases (any (λ x. x.id == row.id) db.events)) [
        | inl taken ↦ rw (clean, good, taken) s
        | inr fresh ↦ rw (clean, good, fresh) (with_event row db fresh s)
      ]
    ]
  ]

  pub insert_event_and_deliveries-Keeps :
      (octets : JsonValue M → ℕ) (row : EventRow M) (ids : List Str)
      → row.created_at ≤ now
      → Keeps (IsSound now) (insert_event_and_deliveries octets row ids)
  unfolding insert_event_and_deliveries insert_event
  insert_event_and_deliveries-Keeps octets row ids past db s =
      let run = insert_event_and_deliveries octets row ids db in
      let kept : run.1 ≡ db → IsSound now run.1 = λ same. subst (IsSound now) (sym same) s in
      elim (Bool-cases (has_nul (event_texts row) || has_nul ids)) [
        | inl nul ↦ kept (ground (arith, nul))
        | inr clean ↦ elim (Bool-cases (events_check octets row)) [
          | inr bad ↦ kept (ground (arith, bad))
          | inl good ↦ elim (Bool-cases (any (λ x. x.id == row.id) db.events)) [
            | inl taken ↦ kept (ground (arith, good, taken))
            | inr fresh ↦
                elim (Result-cases (
                  insert_deliveries (fan_out row.created_at row.id db.next_delivery_id ids)
                    db.deliveries)) [
                      | inr (x, e) ↦ kept (ground (arith, good, fresh, e))
                      | inl (ds, e) ↦
                          let wrote : run.1 ≡ with_rows row ids ds db =
                            ground (arith, clean, good, fresh, e) in
                          subst (IsSound now) (sym wrote)
                            (with_rows-IsSound row ids ds db fresh s past e)
                    ]
          ]
        ]
      ]
