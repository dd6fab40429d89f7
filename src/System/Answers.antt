-- ===== src/System/Answers.antt =====
-- The answer of an upsert, while its transaction is open (src/outbox.rs, step 5).
use rust_events.Base.{
  ℕ, Bool, true, false, ◌≡◌, ◌⊎◌, refl, sym, subst, ap, ◌∙◌, inl, inr, Bool-cases, Option-cases,
  Option, none, some, [], ◌∷◌, ◌++◌, Str, str_eq_iff, ok, err, any, ◌==◌, arith,
}
use rust_events.Util.{SqlxError}
use rust_events.Schema.{DispatchKey, dispatch_keys_check, check_violation, unique_violation}
use rust_events.Dispatch.Transaction.{is_key, reserve_key, has_nul, character_not_in_repertoire}
use rust_events.System.Races.{
  Shared, own_rows, others, visible, is_locked_by_others, upsert, RaceStep, upserts, commits_other,
  rolls_back_other, deletes, elsewhere, RaceRuns, nothing_more, one_more,
}
use rust_events.System.Locks.{
  key_row, has_lock, IsLockedBy, key_row-this, own_rows-none, other_has_none, own_rows-others,
  others-IsLockedBy, key_row-delete_where, one_key, another_key, lock_seen, drop_middle, same_tail,
}

module _ {M : Type 0} (now tx event_id : ℕ) (tenant key : Str) (s : Shared M) where
  abbrev pub new_row : DispatchKey
  new_row = record {
    tenant_id = tenant;
    idempotency_key = key;
    event_id = event_id;
    created_at = now;
  }

  abbrev pub reserves : DispatchKey → Bool → Shared M
  reserves k inserted = record s {
    held = record { tx = tx; row = k; inserted = inserted } ∷ s.held;
  }

  abbrev pub seen : Option DispatchKey
  seen = key_row tenant key (visible tx s).dispatch_keys

  upsert_refused :
      has_nul (tenant ∷ key ∷ []) ≡ true
      → upsert now tx tenant key event_id s ≡ (err character_not_in_repertoire, s)
  unfolding reserve_key
  upsert_refused nul = ground (arith, nul)

  pub upsert-eq-ok :
      (a : ℕ × Bool)
      → (upsert now tx tenant key event_id s).0 ≡ ok a
      → has_nul (tenant ∷ key ∷ []) ≡ false
  upsert-eq-ok a answered = elim (Bool-cases (has_nul (tenant ∷ key ∷ []))) [
    | inl nul ↦ absurd (ground (arith, upsert_refused nul, answered))
    | inr clean ↦ clean
  ]

  pub upsert_found :
      (k : DispatchKey)
      → seen ≡ some k
      → has_nul (tenant ∷ key ∷ []) ≡ false
      → upsert now tx tenant key event_id s ≡ (ok (k.event_id, false), reserves k false)
  unfolding reserve_key
  upsert_found k e clean = ground (arith, e, clean)

  pub upsert_free :
      seen ≡ none
      → ((x : SqlxError) × (upsert now tx tenant key event_id s ≡ (err x, s)))
        ⊎ (upsert now tx tenant key event_id s ≡ (ok (event_id, true), reserves new_row true))
  unfolding reserve_key
  upsert_free e = elim (Bool-cases (has_nul (tenant ∷ key ∷ []))) [
    | inl nul ↦ inl (character_not_in_repertoire, upsert_refused nul)
    | inr clean ↦ elim (Bool-cases (dispatch_keys_check new_row)) [
      | inr bad ↦ inl (check_violation, ground (arith, e, clean, bad))
      | inl good ↦
          elim (Bool-cases (any (λ k. k.event_id == event_id) (visible tx s).dispatch_keys)) [
            | inl taken ↦ inl (unique_violation, ground (arith, e, clean, good, taken))
            | inr fresh ↦ inr (
                ground (arith, e, clean, good, fresh, str_eq_iff tenant tenant, str_eq_iff key key))
          ]
    ]
  ]

  -- An upsert leaves all as it is, or takes one lock.
  pub upsert_cases :
      ((upsert now tx tenant key event_id s).1 ≡ s)
      ⊎ ((k : DispatchKey) × (inserted : Bool) × ((upsert now tx tenant key event_id s).1
            ≡ reserves k inserted)
          × (is_key tenant key k ≡ true)
          × ((inserted ≡ false) ⊎ (seen ≡ none)))
  upsert_cases = elim (Option-cases seen) [
    | inr (k, e) ↦ elim (Bool-cases (has_nul (tenant ∷ key ∷ []))) [
      | inl nul ↦ inl (ap (λ r. r.1) (upsert_refused nul))
      | inr clean ↦ inr (
        k,
        false,
        ap (λ r. r.1) (upsert_found k e clean),
        key_row-this tenant key (visible tx s).dispatch_keys k e,
        inl refl,
      )
    ]
    | inl e ↦ elim (upsert_free e) [
      | inl (_, failed) ↦ inl (ap (λ r. r.1) failed)
      | inr went ↦ inr (
        new_row,
        true,
        ap (λ r. r.1) went,
        ground (arith, str_eq_iff tenant tenant, str_eq_iff key key),
        inr e,
      )
    ]
  ]

module _ {M : Type 0} (tenant key : Str) (mine : ℕ) (row : DispatchKey) where
  -- `mine` has been answered with the row, and has its lock.
  pub record IsAnswered (s : Shared M) : Type 0 where
    pub sees : key_row tenant key (visible mine s).dispatch_keys ≡ some row
    pub locked : IsLockedBy tenant key mine s.held

  -- One more lock, of another key, or of this transaction.
  reserves-IsAnswered :
      (now tx event_id : ℕ) (tenant' key' : Str) (s : Shared M) (k : DispatchKey) (inserted : Bool)
      → is_locked_by_others tx tenant' key' s ≡ false
      → is_key tenant' key' k ≡ true
      → (inserted ≡ false) ⊎ (key_row tenant' key' (visible tx s).dispatch_keys ≡ none)
      → IsAnswered s
      → IsAnswered (reserves now tx event_id tenant' key' s k inserted)
  reserves-IsAnswered now tx event_id tenant' key' s k inserted free here new a =
      elim (Bool-cases (tx == mine)) [
        | inl own ↦
            let same : tx ≡ mine = ground (arith, own) in
            let by_no_other : any (has_lock tenant key)
                  (others mine (record { tx = tx; row = k; inserted = inserted } ∷ s.held))
                ≡ false =
              ground (arith, own, a.locked.by_no_other) in
            record {
              sees = elim new [
                | inl found ↦ ground (arith, own, found, a.sees)
                | inr none_there ↦
                    let apart : is_key tenant key k ≡ false = another_key tenant key k λ e.
                      let (t, i) = one_key tenant key tenant' key' k e here in
                      ground (arith, rw (t, i, same) at none_there, a.sees) in
                    ground (arith, own, apart, a.sees)
              ];
              locked = record {
                by_this = ground (arith, a.locked.by_this);
                by_no_other = by_no_other;
              };
            }
        | inr other ↦
            let apart = another_key tenant key k λ e.
              let (t, i) = one_key tenant key tenant' key' k e here in
              ground (
                arith,
                rw (t, i) at free,
                lock_seen tenant key mine tx s.held other a.locked.by_this,
              ) in
            record {
              sees = ground (arith, other, a.sees);
              locked = record {
                by_this = ground (arith, a.locked.by_this);
                by_no_other = ground (arith, apart, a.locked.by_no_other);
              };
            }
      ]

  pub RaceStep-IsAnswered : (s s' : Shared M) → RaceStep mine s s' → IsAnswered s → IsAnswered s'
  RaceStep-IsAnswered s s' (upserts now tx event_id tenant' key' _ free) a =
      elim (upsert_cases now tx event_id tenant' key' s) [
        | inl same ↦ subst IsAnswered (sym same) a
        | inr (k, inserted, more, here, new) ↦
            subst IsAnswered (sym more)
              (reserves-IsAnswered now tx event_id tenant' key' s k inserted free here new a)
      ]
  RaceStep-IsAnswered s s' (commits_other tx _ other) a =
      let none_there =
        own_rows-none tenant key tx s.held
          (other_has_none tenant key mine tx s.held other a.locked.by_no_other) in
      record {
        sees =
            ap (λ ks. key_row tenant key (ks ++ (own_rows tx s.held ++ s.db.dispatch_keys)))
              (own_rows-others tenant key mine tx s.held other)
            ∙ drop_middle tenant key (own_rows mine s.held) (own_rows tx s.held) s.db.dispatch_keys
                none_there
            ∙ a.sees;
        locked = others-IsLockedBy tenant key mine tx s.held other a.locked;
      }
  RaceStep-IsAnswered s s' (rolls_back_other tx _ other) a = record {
    sees =
        ap (λ ks. key_row tenant key (ks ++ s.db.dispatch_keys))
          (own_rows-others tenant key mine tx s.held other)
        ∙ a.sees;
    locked = others-IsLockedBy tenant key mine tx s.held other a.locked;
  }
  RaceStep-IsAnswered s s' (deletes p _ free) a = record {
    sees =
        same_tail tenant key (own_rows mine s.held) _ s.db.dispatch_keys
          (key_row-delete_where tenant key p s.held mine s.db.dispatch_keys a.locked.by_this free)
        ∙ a.sees;
    locked = a.locked;
  }
  RaceStep-IsAnswered s s' (elsewhere _ db same) a = record {
    sees = ap (λ ks. key_row tenant key (own_rows mine s.held ++ ks)) same ∙ a.sees;
    locked = a.locked;
  }

  pub RaceRuns-IsAnswered : (s s' : Shared M) → RaceRuns mine s s' → IsAnswered s → IsAnswered s'
  RaceRuns-IsAnswered s s' (nothing_more _) a = a
  RaceRuns-IsAnswered s s' (one_more _ mid _ one more) a =
      RaceRuns-IsAnswered mid s' more (RaceStep-IsAnswered s mid one a)
