-- ===== src/Start/Once.antt =====
-- Calls of `Outbox::start`, one after the other, as a supervising loop makes them.
use rust_events.Base.{
  ◌≤◌, ◌≡◌, refl, Bool, true, false, inl, inr, List, [], ◌∷◌, any, map, Result, ok, err,
  Result-cases, arith, count_where,
}
use rust_events.Builder.{Outbox}
use rust_events.Start.Worker.{Queue}
use rust_events.Start.{StartError, StartIo, already_started, start_worker, start}

abbrev pub is_ok : {A E : Type 0} → Result A E → Bool
is_ok (ok _) = true
is_ok (err _) = false

module _ {B M : Type 0} (Q : Queue B M) (empty_headers : M) (outbox : Outbox B M) where
  -- The answers, and the flag at the end.
  unfoldable pub start_all : List (StartIo Q) → Bool → List (Result Q.Handle (StartError Q)) × Bool
  start_all [] flag = ([], flag)
  start_all (io ∷ ios) flag =
      let (answer, next) = start Q empty_headers outbox io flag in
      let (answers, last) = start_all ios next in (answer ∷ answers, last)

  abbrev refused : StartIo Q → Result Q.Handle (StartError Q)
  refused io = err already_started

  started_stays : (ios : List (StartIo Q)) → start_all ios true ≡ (map refused ios, true)
  unfolding start_all start
  started_stays [] = refl
  started_stays (io ∷ ios) = ground (arith, started_stays ios)

  refused_count : (ios : List (StartIo Q)) → count_where is_ok (map refused ios) ≡ 0
  refused_count [] = refl
  refused_count (io ∷ ios) = omega (arith, refused_count ios)

  -- However often and under whatever conditions `start` is called on a new outbox, at most one call
  -- succeeds, and the flag is set at the end exactly if one did: a call that fails leaves the outbox
  -- ready for the next.
  pub starts_once :
      (ios : List (StartIo Q))
      → let (answers, flag) = start_all ios false in
        (count_where is_ok answers ≤ 1) × (flag ≡ any is_ok answers)
  unfolding start_all start
  starts_once [] = (omega arith, refl)
  starts_once (io ∷ ios) = elim (Result-cases (start_worker Q empty_headers outbox io)) [
    | inl (h, e) ↦ ground (arith, e, started_stays ios, refused_count ios)
    | inr (x, e) ↦ ground (arith, e, starts_once ios)
  ]
