-- ===== src/Purge/Loop.antt =====
-- Two rules for the loop of src/purge.rs.
use rust_events.Base.{
  ℕ, zero, suc, ◌+◌, ◌<◌, ◌≡◌, inl, inr, Bool-cases, Result, ok, err, Action, ltb, ap, ◌∙◌, arith,
}
use rust_events.Limits.{purge_chunk_size}
use rust_events.Util.{SqlxError}
use rust_events.Schema.{Db, Wire, reply, over}
use rust_events.Purge.{Purged, finished, after_chunk, purge_loop}
use rust_events.Runtime.Statements.{over_cases}

module _ {ℓ} {M : Type 0} (delete : Action (Db M) ℕ SqlxError) (Inv : Db M → Type ℓ) where
  after_chunk_keeps :
      (rest : ℕ → Db M → Purged × Db M) (total : ℕ) (answer : Result ℕ SqlxError) (db : Db M)
      → Inv db
      → ((t : ℕ) → Inv db → Inv (rest t db).1)
      → Inv (after_chunk rest total answer db).1
  after_chunk_keeps rest total (err e) db v next = v
  after_chunk_keeps rest total (ok n) db v next = elim (Bool-cases (ltb n purge_chunk_size)) [
    | inl last ↦ rw last v
    | inr more ↦ rw more (next (total + n) v)
  ]

  -- What every statement keeps is kept by the loop, whatever the wire does and however it ends.
  pub purge_loop_keeps :
      ((db : Db M) → Inv db → Inv (delete db).1)
      → (wires : ℕ → Wire) (fuel total : ℕ) (db : Db M) → Inv db
      → Inv (purge_loop wires delete fuel total db).1
  unfolding purge_loop
  purge_loop_keeps keep wires zero total db v = v
  purge_loop_keeps keep wires (suc fuel) total db v =
      after_chunk_keeps (purge_loop wires delete fuel) total (over (wires fuel) delete db).0
        (over (wires fuel) delete db).1 (over_cases Inv (wires fuel) delete db v (keep db v))
        (λ t. purge_loop_keeps keep wires fuel t (over (wires fuel) delete db).1)

  -- A statement that deletes what remains, and at most a chunk of it at once.
  abbrev pub Deletes : (Db M → ℕ) → Type ℓ
  Deletes remaining =
      (db : Db M)
      → Inv db
      → (n : ℕ) × (db' : Db M) × (delete db ≡ (ok n, db'))
        × Inv db'
        × (remaining db ≡ n + remaining db')
        × (n < purge_chunk_size → remaining db' ≡ 0)

  -- If the server answers, fuel for the remaining rows is enough, and none remains.
  pub purge_loop_ends :
      (remaining : Db M → ℕ)
      → Deletes remaining
      → (fuel total : ℕ) (db : Db M) → Inv db
      → remaining db < fuel
      → (db' : Db M) × (purge_loop (λ _. reply) delete fuel total db
          ≡ (finished (ok (total + remaining db)), db'))
        × Inv db'
        × (remaining db' ≡ 0)
  unfolding purge_loop over
  purge_loop_ends remaining deletes zero total db v h = absurd (omega arith)
  purge_loop_ends remaining deletes (suc fuel) total db v h =
      let (n, db1, runs, v1, counted, ends) = deletes db v in
      elim (Bool-cases (ltb n purge_chunk_size)) [
        | inl last ↦
            let none_left = ends (ground (arith, last)) in
            (db1, rw (runs, last) (ap (λ t. (finished (ok t), db1)) (omega arith)), v1, none_left)
        | inr more ↦
            let (db2, rest, v2, none_left) =
              purge_loop_ends remaining deletes fuel (total + n) db1 v1
                (ground (arith, more, counted)) in
            (
              db2,
              rw (runs, more) (rest ∙ ap (λ t. (finished (ok t), db2)) (omega (arith, counted))),
              v2,
              none_left,
            )
      ]

  -- The same, where the invariant and an empty rest leave one database.
  pub purge_loop_lem :
      (remaining : Db M → ℕ) (final : Db M)
      → Deletes remaining
      → ((db' : Db M) → Inv db' → remaining db' ≡ 0 → db' ≡ final)
      → (fuel : ℕ) (db : Db M) → Inv db
      → remaining db < fuel
      → purge_loop (λ _. reply) delete fuel 0 db ≡ (finished (ok (remaining db)), final)
  purge_loop_lem remaining final deletes only fuel db v enough =
      let (db', runs, v', none_left) = purge_loop_ends remaining deletes fuel 0 db v enough in
      runs
      ∙ ap (λ s. (finished (ok (0 + remaining db)), s)) (only db' v' none_left)
      ∙ ap (λ t. (finished (ok t), final)) (omega arith)
