-- ===== src/System/Handlers.antt =====
-- The handler ids of a built outbox fit the table of deliveries.
use rust_events.Base.{
  ℕ, suc, ◌≡◌, refl, sym, ap, ◌∙◌, true, false, none, inl, inr, Bool-cases, List, [], ◌∷◌, ◌++◌,
  Str, str_eq, str_eq_iff, len-is_empty, ok, any, any-append, All, All-none, AreDistinct, ◌==◌,
  arith,
}
use mathlib.Core.List.{append_assoc, append-nil}
use rust_events.Builder.{PendingHandler}
use rust_events.Builder.Registration.{ids_for, find_pending, IsEntry, HasNewIds}
use rust_events.Schema.{EventRow, Delivery, deliveries_check, is_delivery, between_1_and}
use rust_events.Purge.Statements.{has_id}
use rust_events.Purge.Cascade.{AreReferenced}
use rust_events.Dispatch.Transaction.{queued_delivery, fan_out, insert_deliveries}

module _ {M : Type 0} where
  pub ids_for-All :
      (global : ℕ) (t : Str) (es : List (PendingHandler M))
      → All (IsEntry global) es
      → All (λ h. between_1_and 128 h ≡ true) (ids_for t es)
  ids_for-All global t [] v = tt
  ids_for-All global t (e ∷ es) v = elim (Bool-cases (str_eq e.event_type t)) [
    | inl same ↦
        rw same
          (ground (arith, v.0.0, v.0.1, len-is_empty e.handler_id), ids_for-All global t es v.1)
    | inr other ↦ rw other (ids_for-All global t es v.1)
  ]

  any-ids_for :
      (id t : Str) (es : List (PendingHandler M))
      → find_pending id es ≡ none
      → any (str_eq id) (ids_for t es) ≡ false
  any-ids_for id t [] h = refl
  any-ids_for id t (e ∷ es) h =
      ground (arith, h, any-ids_for id t es, str_eq_iff e.handler_id id, str_eq_iff id e.handler_id)

  pub ids_for-AreDistinct :
      (t : Str) (es : List (PendingHandler M)) → HasNewIds es → AreDistinct str_eq (ids_for t es)
  ids_for-AreDistinct t [] h = tt
  ids_for-AreDistinct t (e ∷ es) h = elim (Bool-cases (str_eq e.event_type t)) [
    | inl same ↦ rw same (any-ids_for e.handler_id t es h.0, ids_for-AreDistinct t es h.1)
    | inr other ↦ rw other (ids_for-AreDistinct t es h.1)
  ]

  -- Nothing refers to an event that is not there.
  pub none_refers :
      {R : Type 0} (ref : R → ℕ) (es : List (EventRow M)) (rs : List R) (i : ℕ)
      → AreReferenced ref es rs
      → has_id es i ≡ false
      → any (λ r. ref r == i) rs ≡ false
  none_refers ref es [] i h fresh = refl
  none_refers ref es (r ∷ rs) i h fresh = elim (Bool-cases (ref r == i)) [
    | inl same ↦
        let here : i ≡ ref r = ground (arith, same) in
        absurd (ground (arith, h.0, rw here at fresh))
    | inr other ↦ ground (arith, other, none_refers ref es rs i h.1 fresh)
  ]

pub any-is_delivery :
    (i : ℕ) (h : Str) (ds : List Delivery)
    → any (λ d. d.event_id == i) ds ≡ false
    → any (is_delivery i h) ds ≡ false
any-is_delivery i h [] e = refl
any-is_delivery i h (d ∷ ds) e = ground (arith, e, any-is_delivery i h ds)

pub All-is_delivery :
    (i : ℕ) (hs : List Str) (ds : List Delivery)
    → any (λ d. d.event_id == i) ds ≡ false
    → All (λ h. any (is_delivery i h) ds ≡ false) hs
All-is_delivery i [] ds e = tt
All-is_delivery i (h ∷ hs) ds e = (any-is_delivery i h ds e, All-is_delivery i hs ds e)

queued_delivery_checked :
    (now i next : ℕ) (h : Str)
    → between_1_and 128 h ≡ true
    → deliveries_check (queued_delivery now i next h) ≡ true
unfolding deliveries_check
queued_delivery_checked now i next h e = ground (arith, e)

after_one :
    (now i next : ℕ) (h : Str) (hs : List Str) (ds : List Delivery)
    → All (λ g. any (is_delivery i g) ds ≡ false) hs
    → All (λ g. str_eq h g ≡ false) hs
    → All (λ g. any (is_delivery i g) (ds ++ queued_delivery now i next h ∷ []) ≡ false) hs
after_one now i next h [] ds k n = tt
after_one now i next h (g ∷ hs) ds k n = (
  ground (arith, k.0, n.0, any-append (is_delivery i g) ds (queued_delivery now i next h ∷ [])),
  after_one now i next h hs ds k.1 n.1,
)

-- The fan-out to distinct handlers, of an event that has no deliveries yet, is not refused.
pub insert_deliveries_ok :
    (now i next : ℕ) (hs : List Str) (ds : List Delivery)
    → All (λ h. between_1_and 128 h ≡ true) hs
    → AreDistinct str_eq hs
    → All (λ h. any (is_delivery i h) ds ≡ false) hs
    → insert_deliveries (fan_out now i next hs) ds ≡ ok (ds ++ fan_out now i next hs)
unfolding insert_deliveries
insert_deliveries_ok now i next [] ds v u n = ap ok (sym (append-nil ds))
insert_deliveries_ok now i next (h ∷ hs) ds v u n =
    let r = queued_delivery now i next h in
    rw (queued_delivery_checked now i next h v.0, n.0)
      (insert_deliveries_ok now i (suc next) hs (ds ++ r ∷ []) v.1 u.1
          (after_one now i next h hs ds n.1 (All-none (str_eq h) hs u.0))
        ∙ ap ok (append_assoc ds (r ∷ []) (fan_out now i (suc next) hs)))
