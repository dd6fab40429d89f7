-- ===== src/System/Races.antt =====
-- Transactions that race for idempotency keys. The upsert of `Outbox::dispatch` (src/outbox.rs, step
-- 5) inserts its key or takes the lock of the row that is there, and keeps it until its transaction
-- ends: another upsert of the key, and a DELETE of its row, wait until then. A call that waits is not
-- a step. The UNIQUE index on the event ids makes nobody wait, since each upsert has a new id.
use rust_events.Base.{
  ℕ, Bool, false, ◌&&◌, ◌≡◌, none, some, List, [], ◌∷◌, ◌++◌, Str, Result, ok, err, any, first,
  select_where, delete_where, ◌==◌, if◌then◌else◌,
}
use rust_events.Util.{SqlxError}
use rust_events.Schema.{Db, DispatchKey}
use rust_events.Dispatch.Transaction.{is_key, reserve_key}
use rust_events.Purge.Statements.{same_key}

-- An open transaction has the lock of a key's row, which it has inserted, or has found.
pub record Reservation : Type 0 where
  pub tx : ℕ
  pub row : DispatchKey
  pub inserted : Bool

-- What is committed, and what the open transactions hold.
pub record Shared (M : Type 0) : Type 0 where
  pub db : Db M
  pub held : List Reservation

-- The rows that a transaction has inserted.
abbrev pub own_rows : ℕ → List Reservation → List DispatchKey
own_rows tx [] = []
own_rows tx (r ∷ rs) = if r.tx == tx && r.inserted then r.row ∷ own_rows tx rs else own_rows tx rs

-- The locks of all transactions but this one.
abbrev pub others : ℕ → List Reservation → List Reservation
others tx = delete_where (λ r. r.tx == tx)

-- The row that the upsert leaves under its key has its lock.
abbrev pub lock_row : ℕ → Str → Str → Bool → List DispatchKey → List Reservation → List Reservation
lock_row tx tenant key inserted keys held = elim (first (select_where (is_key tenant key) keys)) [
  | none ↦ held
  | some k ↦ record { tx = tx; row = k; inserted = inserted } ∷ held
]

module _ {M : Type 0} where
  -- What a transaction sees: its own rows, and what is committed.
  abbrev pub visible : ℕ → Shared M → Db M
  visible tx s = record s.db { dispatch_keys = own_rows tx s.held ++ s.db.dispatch_keys }

  abbrev pub is_locked_by_others : ℕ → Str → Str → Shared M → Bool
  is_locked_by_others tx tenant key s = any (λ r. is_key tenant key r.row) (others tx s.held)

  abbrev pub after_upsert :
      ℕ
      → Str
      → Str
      → Shared M
      → Result (ℕ × Bool) SqlxError × Db M
      → Result (ℕ × Bool) SqlxError × Shared M
  after_upsert tx tenant key s (err x, _) = (err x, s)
  after_upsert tx tenant key s (ok (event_id, inserted), db) = (
    ok (event_id, inserted),
    record s { held = lock_row tx tenant key inserted db.dispatch_keys s.held },
  )

  -- The upsert in transaction `tx`.
  abbrev pub upsert : ℕ → ℕ → Str → Str → ℕ → Shared M → Result (ℕ × Bool) SqlxError × Shared M
  upsert now tx tenant key event_id s =
      after_upsert tx tenant key s (reserve_key now tenant key event_id (visible tx s))

  abbrev pub commit : ℕ → Shared M → Shared M
  commit tx s = record { db = visible tx s; held = others tx s.held }

  abbrev pub roll_back : ℕ → Shared M → Shared M
  roll_back tx s = record s { held = others tx s.held }

  -- What may happen while the transaction `mine` is open.
  pub data RaceStep (mine : ℕ) : Shared M → Shared M → Type 0 where
    upserts :
        (now tx event_id : ℕ) (tenant key : Str) (s : Shared M)
        → is_locked_by_others tx tenant key s ≡ false
        → RaceStep mine s (upsert now tx tenant key event_id s).1
    commits_other : (tx : ℕ) (s : Shared M) → (tx == mine) ≡ false → RaceStep mine s (commit tx s)
    rolls_back_other :
        (tx : ℕ) (s : Shared M) → (tx == mine) ≡ false → RaceStep mine s (roll_back tx s)
    -- A purge, of keys, or of events with their keys.
    deletes :
        (p : DispatchKey → Bool) (s : Shared M)
        → any (λ k. p k && any (λ r. same_key r.row k) s.held) s.db.dispatch_keys ≡ false
        → RaceStep mine s
            (record s { db = record s.db { dispatch_keys = delete_where p s.db.dispatch_keys } })
    -- Statements on the other tables.
    elsewhere :
        (s : Shared M) (db : Db M)
        → db.dispatch_keys ≡ s.db.dispatch_keys
        → RaceStep mine s (record s { db = db })

  pub data RaceRuns (mine : ℕ) : Shared M → Shared M → Type 0 where
    nothing_more : (s : Shared M) → RaceRuns mine s s
    one_more :
        (s s' s'' : Shared M) → RaceStep mine s s' → RaceRuns mine s' s'' → RaceRuns mine s s''
