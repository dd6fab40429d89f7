-- ===== src/System/Phases.antt =====
-- The delivery of an event to a handler, as all that its rows say of it.
use rust_events.Base.{
  ℕ, ◌≡◌, refl, Bool, true, false, ◌&&◌, ◌||◌, List, [], ◌∷◌, Str, str_eq, str_eq_iff, any, ◌==◌,
  if◌then◌else◌, arith,
}
use rust_events.Schema.{Delivery, is_delivery}
use rust_events.Schema.Status.{is_active, is_terminal}
use rust_events.Purge.Safety.{pending}
use rust_events.Runtime.Evolution.{AllEvolve}

-- Not in the tables, still to be made, or over.
pub data Phase : Type 0 where
  absent due closed : Phase

module _ (event_id : ℕ) (handler_id : Str) where
  abbrev pub is_due : List Delivery → Bool
  is_due = any (λ d. is_delivery event_id handler_id d && is_active d.status)

  abbrev pub is_closed : List Delivery → Bool
  is_closed = any (λ d. is_delivery event_id handler_id d && is_terminal d.status)

  abbrev pub phase_of : List Delivery → Phase
  phase_of ds = if is_due ds then due else if is_closed ds then closed else absent

  pub is_due-pending :
      (ds : List Delivery) → any (is_delivery event_id handler_id) (pending ds) ≡ is_due ds
  is_due-pending [] = refl
  is_due-pending (d ∷ ds) = ground (arith, is_due-pending ds)

  pub is_due_or_closed :
      (ds : List Delivery) → any (is_delivery event_id handler_id) ds ≡ (is_due ds || is_closed ds)
  is_due_or_closed [] = refl
  is_due_or_closed (d ∷ ds) = ground (arith, is_due_or_closed ds)

  -- Rows that a worker for another delivery wrote to.
  pub others_phase :
      (e : ℕ) (h : Str) (ds es : List Delivery)
      → (event_id == e && str_eq handler_id h) ≡ false
      → AllEvolve e h ds es
      → (is_due es ≡ is_due ds) × (is_closed es ≡ is_closed ds)
  others_phase e h [] [] other k = (refl, refl)
  others_phase e h (d ∷ ds) (d' ∷ es) other k = ground (
    arith,
    other,
    k.0,
    others_phase e h ds es other k.1,
    str_eq_iff d.handler_id handler_id,
    str_eq_iff d.handler_id h,
    str_eq_iff handler_id h,
  )
  others_phase e h [] (_ ∷ _) other k = absurd k
  others_phase e h (_ ∷ _) [] other k = absurd k

  -- Rows that a worker for this one wrote to.
  pub own_phase :
      (ds es : List Delivery)
      → AllEvolve event_id handler_id ds es
      → (is_due ds ≡ false → (is_due es ≡ false) × (is_closed es ≡ is_closed ds))
        × (is_due ds ≡ true → (is_due es || is_closed es) ≡ true)
  own_phase [] [] k = ground arith
  own_phase (d ∷ ds) (d' ∷ es) k = ground (arith, k.0, own_phase ds es k.1)
  own_phase [] (_ ∷ _) k = absurd k
  own_phase (_ ∷ _) [] k = absurd k
