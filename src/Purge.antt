-- ===== src/Purge.antt =====
-- src/purge.rs: three loops that delete old rows in chunks. The state is the database. The clock, the
-- arithmetic of chrono and the wire of each statement are arguments, and the fuel bounds the turns
-- of a loop.
pub mod Statements
pub mod Loop
pub mod Rows
pub mod Cascade
pub mod Total
pub mod Safety
use rust_events.Base.{
  ℕ, zero, suc, ◌+◌, Option, none, some, Result, ok, err, Action, get_or, ltb, if◌then◌else◌,
}
use rust_events.Limits.{purge_chunk_size}
use rust_events.Util.{SqlxError}
use rust_events.Schema.{Db, Wire, over}
use Statements.{delete_terminal_deliveries, delete_dispatch_keys, delete_events}

-- `PurgeError` of src/error.rs.
pub data PurgeError : Type 0 where
  sqlx : SqlxError → PurgeError

-- What the code uses of chrono: `Duration::from_std`, which fails beyond its range, `Duration::MAX`,
-- and `-` on a `DateTime<Utc>`, whose panic is `none`.
pub record Chrono : Type 0 where
  pub from_std : ℕ → Option ℕ
  pub max : ℕ
  pub sub : ℕ → ℕ → Option ℕ

pub data Purged : Type 0 where
  panicked : Purged
  -- The fuel was not enough.
  unfinished : Purged
  finished : Result ℕ PurgeError → Purged

unfoldable pub cutoff_from : Chrono → ℕ → ℕ → Option ℕ
cutoff_from chrono now older_than = chrono.sub now (get_or (chrono.from_std older_than) chrono.max)

-- The end of a turn: `rest` is the next one.
abbrev pub after_chunk :
    {S : Type 0} → (ℕ → S → Purged × S) → ℕ → Result ℕ SqlxError → S → Purged × S
after_chunk rest total (err e) s = (finished (err (sqlx e)), s)
after_chunk rest total (ok n) s =
    if ltb n purge_chunk_size then (finished (ok (total + n)), s) else rest (total + n) s

module _ {M : Type 0} (wires : ℕ → Wire) (delete : Action (Db M) ℕ SqlxError) where
  -- The `loop`, with the total so far.
  unfoldable pub purge_loop : ℕ → ℕ → Db M → Purged × Db M
  purge_loop zero total db = (unfinished, db)
  purge_loop (suc fuel) total db =
      let (answer, db') = over (wires fuel) delete db in
      after_chunk (purge_loop fuel) total answer db'

module _ {M : Type 0} (chrono : Chrono) (fuel : ℕ) (wires : ℕ → Wire) (now older_than : ℕ)
    (db : Db M) where
  -- The body that the three functions share.
  abbrev pub purge_with : (ℕ → Action (Db M) ℕ SqlxError) → Option ℕ → Purged × Db M
  purge_with delete none = (panicked, db)
  purge_with delete (some cutoff) = purge_loop wires (delete cutoff) fuel 0 db

  unfoldable pub purge_terminal_deliveries : Purged × Db M
  purge_terminal_deliveries =
      purge_with delete_terminal_deliveries (cutoff_from chrono now older_than)

  unfoldable pub purge_dispatch_keys : Purged × Db M
  purge_dispatch_keys = purge_with delete_dispatch_keys (cutoff_from chrono now older_than)

  unfoldable pub purge_events : Purged × Db M
  purge_events = purge_with delete_events (cutoff_from chrono now older_than)
