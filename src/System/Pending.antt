-- ===== src/System/Pending.antt =====
-- The rows of a delivery that is still to be made.
use rust_events.Base.{
  ℕ, ◌≡◌, refl, sym, subst, ◌∙◌, Bool, true, false, ◌&&◌, inl, inr, Bool-cases, some, List, [], ◌∷◌,
  Str, All, any, first, select_where, ◌==◌, arith,
}
use rust_events.Schema.{Db, EventRow, Delivery, is_delivery}
use rust_events.Schema.Status.{is_active, is_terminal}
use rust_events.Schema.Valid.{any_of_key}
use rust_events.Purge.Statements.{has_id}
use rust_events.System.Sound.{IsWellFormed}
use rust_events.System.Phases.{is_due-pending, is_due_or_closed}
use rust_events.System.Losses.{IsPending}

any-first :
    {A : Type 0} (f : A → Bool) (xs : List A)
    → any f xs ≡ true
    → (x : A) × (first (select_where f xs) ≡ some x)
any-first f [] h = absurd (ground arith)
any-first f (x ∷ xs) h = elim (Bool-cases (f x)) [
  | inl this ↦ (x, ground (arith, this))
  | inr other ↦
      let (y, found) = any-first f xs (ground (arith, h, other)) in
      (y, ground (arith, other, found))
]

All-first :
    {A : Type 0} (P : A → Type 0) (f : A → Bool) (xs : List A) (x : A)
    → All P xs
    → first (select_where f xs) ≡ some x
    → P x × (f x ≡ true)
All-first P f [] x all found = absurd (ground arith)
All-first P f (y ∷ ys) x all found = elim (Bool-cases (f y)) [
  | inl this ↦
      let same : y ≡ x = ground (arith, found, this) in
      (subst P same (all.0), ground (arith, this, same))
  | inr other ↦ All-first P f ys x all.1 (ground (arith, found, other))
]

module _ {M : Type 0} (event_id : ℕ) (handler_id : Str) (u : ℕ) (db : Db M) (w : IsWellFormed u db)
    (pending : IsPending event_id handler_id db) where
  -- The row of a pending delivery, and its event's.
  pub pending_row :
      (d : Delivery) × (first (select_where (is_delivery event_id handler_id) db.deliveries)
        ≡ some d)
      × (is_terminal d.status ≡ false)
  pending_row =
      let due = sym (is_due-pending event_id handler_id db.deliveries) ∙ pending in
      let (d, found) =
        any-first (is_delivery event_id handler_id) db.deliveries
          (ground (arith, due, is_due_or_closed event_id handler_id db.deliveries)) in
      let active =
        sym (
          any_of_key event_id handler_id (λ x. is_active x.status) db.deliveries d
            w.sound.deliveries.rows_distinct found)
        ∙ due in
      (d, found, ground (arith, active))

  pub pending_event :
      (ev : EventRow M) × (first (select_where (λ e. e.id == event_id) db.events) ≡ some ev)
  pending_event =
      let (d, found, _) = pending_row in
      let (refers, this) =
        All-first _ (is_delivery event_id handler_id) db.deliveries d w.sound.deliveries.referring
          found in
      any-first (λ e. e.id == event_id) db.events
        (subst (λ i. has_id db.events i ≡ true) (ground (arith, this)) refers)

pub any-select_where :
    (f q : Delivery → Bool) (ds : List Delivery)
    → any f (select_where q ds) ≡ any (λ d. f d && q d) ds
any-select_where f q [] = refl
any-select_where f q (d ∷ ds) = ground (arith, any-select_where f q ds)
