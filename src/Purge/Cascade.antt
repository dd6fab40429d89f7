-- ===== src/Purge/Cascade.antt =====
-- One statement of `purge_events`, with what it takes along.
use rust_events.Base.{
  ℕ, ◌≡◌, refl, ap, Bool, true, false, not, ◌&&◌, List, [], ◌∷◌, All, All-mono, any, ◌==◌, ltb, inl,
  inr, Bool-cases, count_where, select_where, delete_where, arith,
}
use rust_events.Schema.{EventRow, Delivery}
use rust_events.Purge.Statements.{is_done_event, is_pending_of, has_id}

module _ {M : Type 0} where
  -- The foreign key: each row's event is there.
  abbrev pub AreReferenced : {R : Type 0} → (R → ℕ) → List (EventRow M) → List R → Type 0
  AreReferenced ref es = All (λ r. has_id es (ref r) ≡ true)

  -- The ids that are left.
  has_id-delete_where :
      (vs es : List (EventRow M)) (i : ℕ)
      → has_id (delete_where (λ e. has_id vs e.id) es) i ≡ (has_id es i && not (has_id vs i))
  has_id-delete_where vs [] i = refl
  has_id-delete_where vs (e ∷ es) i = elim (Bool-cases (e.id == i)) [
    | inl same ↦
        let here : e.id ≡ i = ground (arith, same) in
        ground (arith, same, ap (has_id vs) here, has_id-delete_where vs es i)
    | inr other ↦ ground (arith, other, has_id-delete_where vs es i)
  ]

  pub left-has_id :
      (vs es : List (EventRow M))
      → All (λ e. has_id vs e.id ≡ false) (delete_where (λ e. has_id vs e.id) es)
  left-has_id vs [] = tt
  left-has_id vs (e ∷ es) = elim (Bool-cases (has_id vs e.id)) [
    | inl hit ↦ rw hit (left-has_id vs es)
    | inr miss ↦ rw miss (miss, left-has_id vs es)
  ]

  has_id_none :
      (vs es : List (EventRow M)) (i : ℕ)
      → All (λ e. has_id vs e.id ≡ false) es
      → has_id vs i ≡ true
      → has_id es i ≡ false
  has_id_none vs [] i h k = refl
  has_id_none vs (e ∷ es) i h k = elim (Bool-cases (e.id == i)) [
    | inl same ↦
        let here : e.id ≡ i = ground (arith, same) in absurd (ground (arith, k, rw here at (h.0)))
    | inr other ↦ ground (arith, other, has_id_none vs es i h.1 k)
  ]

  pub delete_where-ext :
      (p q : EventRow M → Bool) (es : List (EventRow M))
      → All (λ e. p e ≡ q e) es
      → delete_where p es ≡ delete_where q es
  delete_where-ext p q [] h = refl
  delete_where-ext p q (e ∷ es) h = ground (arith, h.0, delete_where-ext p q es h.1)

  pub count_where-ext :
      (p q : EventRow M → Bool) (es : List (EventRow M))
      → All (λ e. p e ≡ q e) es
      → count_where p es ≡ count_where q es
  count_where-ext p q [] h = refl
  count_where-ext p q (e ∷ es) h = ground (arith, h.0, count_where-ext p q es h.1)

  -- The deliveries of an event that stays are not touched.
  any-cascade :
      (vs : List (EventRow M)) (i : ℕ) (ds : List Delivery)
      → has_id vs i ≡ false
      → any (is_pending_of i) (delete_where (λ d. has_id vs d.event_id) ds)
        ≡ any (is_pending_of i) ds
  any-cascade vs i [] h = refl
  any-cascade vs i (d ∷ ds) h = elim (Bool-cases (d.event_id == i)) [
    | inl same ↦
        let here : d.event_id ≡ i = ground (arith, same) in
        let stays : has_id vs d.event_id ≡ false = rw here h in
        ground (arith, stays, any-cascade vs i ds h)
    | inr other ↦ ground (arith, other, any-cascade vs i ds h)
  ]

  pub done-cascade :
      (cutoff : ℕ) (vs : List (EventRow M)) (ds : List Delivery) (es : List (EventRow M))
      → All (λ e. has_id vs e.id ≡ false) es
      → All
          (λ e.
            is_done_event cutoff (delete_where (λ d. has_id vs d.event_id) ds) e
            ≡ is_done_event cutoff ds e)
          es
  unfolding is_done_event
  done-cascade cutoff vs ds es =
      All-mono _ _ es (λ e h. ap (λ b. ltb e.created_at cutoff && not b) (any-cascade vs e.id ds h))

  -- Rows that refer to events, by `ref`.
  module _ {R : Type 0} (ref : R → ℕ) where
    pub cascade-AreReferenced :
        (vs es : List (EventRow M)) (rs : List R)
        → AreReferenced ref es rs
        → AreReferenced ref
            (delete_where (λ e. has_id vs e.id) es)
            (delete_where (λ r. has_id vs (ref r)) rs)
    cascade-AreReferenced vs es [] h = tt
    cascade-AreReferenced vs es (r ∷ rs) h = elim (Bool-cases (has_id vs (ref r))) [
      | inl gone ↦ rw gone (cascade-AreReferenced vs es rs h.1)
      | inr kept ↦ rw kept (
        ground (arith, has_id-delete_where vs es (ref r), h.0, kept),
        cascade-AreReferenced vs es rs h.1,
      )
    ]

    -- What the events that stay have of the rows is not touched.
    pub select_where-cascade :
        (vs fe : List (EventRow M)) (rs : List R)
        → All (λ e. has_id vs e.id ≡ false) fe
        → select_where (λ r. has_id fe (ref r)) (delete_where (λ r. has_id vs (ref r)) rs)
          ≡ select_where (λ r. has_id fe (ref r)) rs
    select_where-cascade vs fe [] h = refl
    select_where-cascade vs fe (r ∷ rs) h = elim (Bool-cases (has_id vs (ref r))) [
      | inl gone ↦
          ground (arith, gone, has_id_none vs fe (ref r) h gone, select_where-cascade vs fe rs h)
      | inr kept ↦ ground (arith, kept, select_where-cascade vs fe rs h)
    ]

    pub select_where_all :
        (es : List (EventRow M)) (rs : List R)
        → AreReferenced ref es rs
        → select_where (λ r. has_id es (ref r)) rs ≡ rs
    select_where_all es [] h = refl
    select_where_all es (r ∷ rs) h = ground (arith, h.0, select_where_all es rs h.1)
