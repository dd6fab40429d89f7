-- ===== src/System/Serial.antt =====
-- A transaction that races for a key (src/outbox.rs), and one that runs alone when it commits.
use rust_events.Base.{
  ℕ, Bool, true, false, ◌≡◌, ◌∙◌, inl, inr, Bool-cases, Option-cases, [], ◌∷◌, Str, ok, any, ◌==◌,
  arith,
}
use rust_events.Schema.{dispatch_keys_check}
use rust_events.Dispatch.Transaction.{reserve_key}
use rust_events.System.Races.{Shared, own_rows, is_locked_by_others, upsert, commit, RaceRuns}
use rust_events.System.Answers.{
  new_row, seen, upsert-eq-ok, upsert_found, upsert_free, RaceRuns-IsAnswered,
}
use rust_events.System.Winners.{RaceRuns-IsUncommitted, upsert-IsAnswered}

module _ {M : Type 0} (tenant key : Str) (mine now event_id id : ℕ) (inserted : Bool)
    (s s' : Shared M) where
  abbrev after_first : Shared M
  after_first = (upsert now mine tenant key event_id s).1

  -- A new row has passed its CHECKs.
  new_row-checked :
      (upsert now mine tenant key event_id s).0 ≡ ok (id, inserted)
      → own_rows mine s.held ≡ []
      → inserted ≡ true
      → (own_rows mine after_first.held ≡ new_row now mine event_id tenant key s ∷ [])
        × (dispatch_keys_check (new_row now mine event_id tenant key s) ≡ true)
        × (id ≡ event_id)
  unfolding reserve_key
  new_row-checked answered idle new = elim (Option-cases (seen now mine event_id tenant key s)) [
    | inr (k, e) ↦
        let clean = upsert-eq-ok now mine event_id tenant key s (id, inserted) answered in
        absurd
          (ground (arith, upsert_found now mine event_id tenant key s k e clean, answered, new))
    | inl e ↦ elim (upsert_free now mine event_id tenant key s e) [
      | inl (_, failed) ↦ absurd (ground (arith, failed, answered))
      | inr went ↦
          elim (Bool-cases (dispatch_keys_check (new_row now mine event_id tenant key s))) [
            | inr bad ↦ absurd (ground (arith, e, bad, answered))
            | inl good ↦ ground (arith, went, answered, good, idle)
          ]
    ]
  ]

  old_row :
      (upsert now mine tenant key event_id s).0 ≡ ok (id, inserted)
      → own_rows mine s.held ≡ []
      → inserted ≡ false
      → own_rows mine after_first.held ≡ []
  unfolding reserve_key
  old_row answered idle old = elim (Option-cases (seen now mine event_id tenant key s)) [
    | inr (k, e) ↦
        let clean = upsert-eq-ok now mine event_id tenant key s (id, inserted) answered in
        ground (arith, upsert_found now mine event_id tenant key s k e clean, idle)
    | inl e ↦ elim (upsert_free now mine event_id tenant key s e) [
      | inl (_, failed) ↦ absurd (ground (arith, failed, answered))
      | inr went ↦ absurd (ground (arith, went, answered, old))
    ]
  ]

  -- As far as keys go, a transaction with one upsert may as well have run alone at the moment of its
  -- commit, after all that others have committed meanwhile: the upsert has the same answer there, and
  -- leaves the tables that the commit leaves. (No other transaction has the key's lock at the upsert,
  -- and no committed key has its new event id.)
  pub race_is_serial :
      is_locked_by_others mine tenant key s ≡ false
      → own_rows mine s.held ≡ []
      → (upsert now mine tenant key event_id s).0 ≡ ok (id, inserted)
      → RaceRuns mine after_first s'
      → own_rows mine s'.held ≡ own_rows mine after_first.held
      → any (λ k. k.event_id == event_id) s'.db.dispatch_keys ≡ false
      → reserve_key now tenant key event_id s'.db ≡ (ok (id, inserted), (commit mine s').db)
  unfolding reserve_key
  race_is_serial free idle answered runs no_more fresh =
      let (row, names, first_answer, new) =
        upsert-IsAnswered tenant key mine now event_id s id inserted free answered in
      let still = RaceRuns-IsAnswered tenant key mine row after_first s' runs first_answer in
      let clean = upsert-eq-ok now mine event_id tenant key s (id, inserted) answered in
      elim (Bool-cases inserted) [
        | inl i ↦
            let (one_row, good, same) = new_row-checked answered idle i in
            let uncommitted =
              RaceRuns-IsUncommitted tenant key mine row after_first s' runs first_answer (new i) in
            ground (arith, i, clean, one_row, good, same, uncommitted, no_more, fresh)
        | inr old ↦
            let none_own = no_more ∙ old_row answered idle old in
            ground (arith, old, clean, none_own, still.sees, names)
      ]
