-- ===== src/System/Winners.antt =====
-- How a race for a key ends: what the next transaction finds (src/outbox.rs, step 5).
use rust_events.Base.{
  ℕ, Bool, true, false, ◌&&◌, ◌≡◌, sym, subst, ap, ◌∙◌, inl, inr, Option-cases, none, some, refl,
  List, [], ◌∷◌, Str, str_eq_iff, ok, any, ◌==◌, arith,
}
use rust_events.Schema.{Db, DispatchKey}
use rust_events.Dispatch.Transaction.{is_key}
use rust_events.System.Races.{
  Reservation, Shared, own_rows, others, visible, is_locked_by_others, upsert, commit, roll_back,
  RaceStep, upserts, commits_other, rolls_back_other, deletes, elsewhere, RaceRuns, nothing_more,
  one_more,
}
use rust_events.System.Locks.{
  key_row, has_lock, IsLockedBy, key_row-this, first-append, own_rows-none, other_has_none,
  key_row-delete_where, none_in_tail,
}
use rust_events.System.Answers.{
  new_row, seen, upsert-eq-ok, upsert_found, upsert_free, upsert_cases, IsAnswered,
  RaceRuns-IsAnswered, RaceStep-IsAnswered,
}

-- Fewer locks.
any-others :
    (f : Reservation → Bool) (tx : ℕ) (held : List Reservation)
    → any f held ≡ false
    → any f (others tx held) ≡ false
any-others f tx [] h = h
any-others f tx (r ∷ rs) h = ground (arith, h, any-others f tx rs)

any-and :
    (f g : Reservation → Bool) (held : List Reservation)
    → any f held ≡ false
    → any (λ r. g r && f r) held ≡ false
any-and f g [] h = h
any-and f g (r ∷ rs) h = ground (arith, h, any-and f g rs)

module _ {M : Type 0} (tenant key : Str) (mine : ℕ) where
  -- The key's row is not committed.
  abbrev pub IsUncommitted : Shared M → Type 0
  IsUncommitted s = key_row tenant key s.db.dispatch_keys ≡ none

  RaceStep-IsUncommitted :
      (s s' : Shared M)
      → RaceStep mine s s'
      → IsLockedBy tenant key mine s.held
      → IsUncommitted s
      → IsUncommitted s'
  RaceStep-IsUncommitted s s' (upserts now tx event_id tenant' key' _ free) l u =
      elim (upsert_cases now tx event_id tenant' key' s) [
        | inl same ↦ subst IsUncommitted (sym same) u
        | inr (k, inserted, more, _, _) ↦ subst IsUncommitted (sym more) u
      ]
  RaceStep-IsUncommitted s s' (commits_other tx _ other) l u =
      first-append tenant key (own_rows tx s.held) s.db.dispatch_keys (
        own_rows-none tenant key tx s.held
          (other_has_none tenant key mine tx s.held other l.by_no_other))
      ∙ u
  RaceStep-IsUncommitted s s' (rolls_back_other tx _ other) l u = u
  RaceStep-IsUncommitted s s' (deletes p _ free) l u =
      key_row-delete_where tenant key p s.held mine s.db.dispatch_keys l.by_this free ∙ u
  RaceStep-IsUncommitted s s' (elsewhere _ db same) l u = ap (key_row tenant key) same ∙ u

  pub RaceRuns-IsUncommitted :
      (row : DispatchKey) (s s' : Shared M)
      → RaceRuns mine s s'
      → IsAnswered tenant key mine row s
      → IsUncommitted s
      → IsUncommitted s'
  RaceRuns-IsUncommitted row s s' (nothing_more _) a u = u
  RaceRuns-IsUncommitted row s s' (one_more _ mid _ one more) a u =
      RaceRuns-IsUncommitted row mid s' more (RaceStep-IsAnswered tenant key mine row s mid one a)
        (RaceStep-IsUncommitted s mid one a.locked u)

  -- What the upsert's answer comes with.
  pub upsert-IsAnswered :
      (now event_id : ℕ) (s : Shared M) (id : ℕ) (inserted : Bool)
      → is_locked_by_others mine tenant key s ≡ false
      → (upsert now mine tenant key event_id s).0 ≡ ok (id, inserted)
      → let s' = (upsert now mine tenant key event_id s).1 in
        (row : DispatchKey) × (row.event_id ≡ id)
        × IsAnswered tenant key mine row s'
        × (inserted ≡ true → IsUncommitted s')
  upsert-IsAnswered now event_id s id inserted free answered =
      elim (Option-cases (seen now mine event_id tenant key s)) [
        | inr (k, e) ↦
            let clean = upsert-eq-ok now mine event_id tenant key s (id, inserted) answered in
            let up = upsert_found now mine event_id tenant key s k e clean in
            let here = key_row-this tenant key (visible mine s).dispatch_keys k e in
            (
              k,
              ground (arith, up, answered),
              subst (IsAnswered tenant key mine k) (ap (λ r. r.1) (sym up)) (record {
                sees = ground (arith, e);
                locked = record {
                  by_this = ground (arith, here);
                  by_no_other = ground (arith, free);
                };
              }),
              λ i. absurd (ground (arith, up, answered, i)),
            )
        | inl e ↦ elim (upsert_free now mine event_id tenant key s e) [
          | inl (_, failed) ↦ absurd (ground (arith, failed, answered))
          | inr went ↦
              let row = new_row now mine event_id tenant key s in
              let here : is_key tenant key row ≡ true =
                ground (arith, str_eq_iff tenant tenant, str_eq_iff key key) in
              (
                row,
                ground (arith, went, answered),
                subst (IsAnswered tenant key mine row) (ap (λ r. r.1) (sym went)) (record {
                  sees = ground (arith, here);
                  locked = record {
                    by_this = ground (arith, here);
                    by_no_other = ground (arith, free);
                  };
                }),
                λ i.
                    subst IsUncommitted (ap (λ r. r.1) (sym went))
                      (none_in_tail tenant key (own_rows mine s.held) s.db.dispatch_keys e),
              )
        ]
      ]

  -- Nobody else has the key's lock when `mine` ends.
  unlocked :
      (tx : ℕ) (db : Db M) (held : List Reservation)
      → IsLockedBy tenant key mine held
      → (is_locked_by_others tx tenant key (record { db = db; held = others mine held }) ≡ false)
        × (key_row tenant key (own_rows tx (others mine held)) ≡ none)
  unlocked tx db held l = (
    any-others (has_lock tenant key) tx (others mine held) l.by_no_other,
    own_rows-none tenant key tx (others mine held)
        (any-and (has_lock tenant key) (λ r. r.tx == tx) (others mine held) l.by_no_other),
  )

  -- Whoever comes after the commit of `mine` finds the same row.
  after_commit :
      (row : DispatchKey) (s : Shared M) (tx : ℕ)
      → IsAnswered tenant key mine row s
      → (is_locked_by_others tx tenant key (commit mine s) ≡ false)
        × (key_row tenant key (visible tx (commit mine s)).dispatch_keys ≡ some row)
  after_commit row s tx a =
      let (free, none_own) = unlocked tx (visible mine s) s.held a.locked in
      (
        free,
        first-append tenant key (own_rows tx (others mine s.held)) (visible mine s).dispatch_keys
              none_own
            ∙ a.sees,
      )

  after_roll_back :
      (s : Shared M) (tx : ℕ)
      → IsLockedBy tenant key mine s.held
      → IsUncommitted s
      → (is_locked_by_others tx tenant key (roll_back mine s) ≡ false)
        × (key_row tenant key (visible tx (roll_back mine s)).dispatch_keys ≡ none)
  after_roll_back s tx l u =
      let (free, none_own) = unlocked tx s.db s.held l in
      (
        free,
        first-append tenant key (own_rows tx (others mine s.held)) s.db.dispatch_keys none_own ∙ u,
      )

  -- Another transaction, after a new row's commit and after its roll back.
  pub race_for_key :
      (now event_id : ℕ) (s s' : Shared M) (tx : ℕ)
      → is_locked_by_others mine tenant key s ≡ false
      → (upsert now mine tenant key event_id s).0 ≡ ok (event_id, true)
      → RaceRuns mine (upsert now mine tenant key event_id s).1 s'
      → (row : DispatchKey) × (row.event_id ≡ event_id)
        × ((is_locked_by_others tx tenant key (commit mine s') ≡ false)
            × (key_row tenant key (visible tx (commit mine s')).dispatch_keys ≡ some row))
        × ((is_locked_by_others tx tenant key (roll_back mine s') ≡ false)
            × (key_row tenant key (visible tx (roll_back mine s')).dispatch_keys ≡ none))
  race_for_key now event_id s s' tx free answered runs =
      let (row, names, first_answer, new) =
        upsert-IsAnswered now event_id s event_id true free answered in
      let s1 = (upsert now mine tenant key event_id s).1 in
      let still = RaceRuns-IsAnswered tenant key mine row s1 s' runs first_answer in
      (
        row,
        names,
        after_commit row s' tx still,
        after_roll_back s' tx still.locked
            (RaceRuns-IsUncommitted row s1 s' runs first_answer (new refl)),
      )
