-- ===== src/Runtime/Traces.antt =====
-- Many workers at one database. A worker's run is a claim and, later, the verdict on what it
-- claimed; between the two, and after either, others may take their steps.
use rust_events.Base.{ℕ, ◌≤◌, ◌≡◌, true, is_some, List, [], ◌∷◌, Str, Result, arith}
use rust_events.Handler.{HandlerEnvelope, HandlerError}
use rust_events.Schema.{Db, Delivery}
use rust_events.Schema.Status.{is_terminal}
use rust_events.Schema.Valid.{AreValid, AreValid-mono}
use rust_events.Runtime.Jobs.{JobContext}
use rust_events.Runtime.Cases.{handle_envelope_cases}
use rust_events.Runtime.Evolution.{Evolves, AllEvolve, AllEvolve-refl, claim-Later, settle-Later}
use rust_events.Runtime.Validity.{claim-AreValid, settle-AreValid}
use rust_events.Runtime.{WorkerIo, OutboxRuntime, claim, settle, handle_envelope}

-- What a row keeps, whoever writes to it.
pub record Persists (d d' : Delivery) : Type 0 where
  pub same_id : d'.id ≡ d.id
  pub same_event : d'.event_id ≡ d.event_id
  pub same_handler : d'.handler_id ≡ d.handler_id
  pub same_creation : d'.created_at ≡ d.created_at
  pub terminal_stays : is_terminal d.status ≡ true → d' ≡ d
  pub attempts_grow : d.attempts ≤ d'.attempts
  pub first_kept :
      is_some d.first_attempted_at ≡ true → d'.first_attempted_at ≡ d.first_attempted_at

abbrev pub AllPersist : List Delivery → List Delivery → Type 0
AllPersist [] [] = Unit
AllPersist [] (_ ∷ _) = ⊥
AllPersist (_ ∷ _) [] = ⊥
AllPersist (d ∷ ds) (d' ∷ ds') = Persists d d' × AllPersist ds ds'

AllPersist-refl : (ds : List Delivery) → AllPersist ds ds
AllPersist-refl [] = tt
AllPersist-refl (d ∷ ds) = (ground arith, AllPersist-refl ds)

-- A step of any worker persists what came before.
AllPersist-cons :
    (event_id : ℕ) (handler_id : Str) (ds es fs : List Delivery)
    → AllEvolve event_id handler_id ds es
    → AllPersist es fs
    → AllPersist ds fs
AllPersist-cons event_id handler_id [] [] fs h k = k
AllPersist-cons event_id handler_id (d ∷ ds) (e ∷ es) (f ∷ fs) h k =
    (persists h.0 k.0, AllPersist-cons event_id handler_id ds es fs h.1 k.1)
  where
    persists : Evolves event_id handler_id d e → Persists e f → Persists d f
    persists u v = ground arith
AllPersist-cons event_id handler_id [] (_ ∷ _) fs h k = absurd h
AllPersist-cons event_id handler_id (_ ∷ _) [] fs h k = absurd h
AllPersist-cons event_id handler_id (_ ∷ _) (_ ∷ _) [] h k = absurd k

module _ {B M : Type 0} (rt : OutboxRuntime B M) where
  -- A step takes the database from one moment to a later one. The verdict is any verdict, of a
  -- worker that holds any token, and its call may be lost like the claim's.
  pub data Step : ℕ → Db M → ℕ → Db M → Type 0 where
    claims :
        (io : WorkerIo) (env : HandlerEnvelope) (ctx : JobContext) (now : ℕ) (db : Db M)
        → now ≤ io.claim_time
        → Step now db io.claim_time (claim io env ctx db).1
    settles :
        (io : WorkerIo) (env : HandlerEnvelope) (ctx : JobContext)
        (result : Result (Unit {0}) HandlerError) (now : ℕ) (db : Db M)
        → now ≤ io.mark_time
        → Step now db io.mark_time (settle io env ctx result db).1

  pub data Runs : ℕ → Db M → ℕ → Db M → Type 0 where
    rest : (now : ℕ) (db : Db M) → Runs now db now db
    step : (t u v : ℕ) (db db' db'' : Db M) → Step t db u db' → Runs u db' v db'' → Runs t db v db''

  Step-AreValid :
      (t u : ℕ) (db db' : Db M)
      → Step t db u db'
      → AreValid t db.deliveries
      → AreValid u db'.deliveries
  Step-AreValid t u db db' (claims io env ctx _ _ le) v =
      claim-AreValid io env ctx rt db (AreValid-mono db.deliveries le v)
  Step-AreValid t u db db' (settles io env ctx result _ _ le) v =
      settle-AreValid io env ctx rt db db result (AreValid-mono db.deliveries le v)

  Step-AllPersist :
      (t u : ℕ) (db db' : Db M) (fs : List Delivery)
      → Step t db u db'
      → AllPersist db'.deliveries fs
      → AllPersist db.deliveries fs
  Step-AllPersist t u db db' fs (claims io env ctx _ _ le) k =
      AllPersist-cons env.event_id env.handler_id db.deliveries _ fs (claim-Later io env ctx rt db)
        k
  Step-AllPersist t u db db' fs (settles io env ctx result _ _ le) k =
      AllPersist-cons env.event_id env.handler_id db.deliveries _ fs
        (settle-Later io env ctx rt db db result
          (AllEvolve-refl env.event_id env.handler_id db.deliveries))
        k

  -- However the claims and verdicts of any number of workers, current or stale, are interleaved, and
  -- whichever of their calls are lost: valid rows stay within the CHECKs of the schema, no row comes
  -- or goes, none loses an attempt, and one that is sent, skipped or dead stays as it is for ever.
  pub runs_keep_rows :
      (t u : ℕ) (db db' : Db M)
      → Runs t db u db'
      → AreValid t db.deliveries
      → AreValid u db'.deliveries × AllPersist db.deliveries db'.deliveries
  runs_keep_rows t u db db' (rest _ _) v = (v, AllPersist-refl db.deliveries)
  runs_keep_rows t u db db' (step _ w _ _ mid _ s runs) v =
      let (valid, persist) = runs_keep_rows w u mid db' runs (Step-AreValid t w db mid s v) in
      (valid, Step-AllPersist t w db mid db'.deliveries s persist)

  -- `handle_envelope` is a claim and at most one verdict.
  pub handle_envelope-Runs :
      (io : WorkerIo) (env : HandlerEnvelope) (ctx : JobContext) (now : ℕ) (db : Db M)
      → now ≤ io.claim_time
      → io.claim_time ≤ io.mark_time
      → (t : ℕ) × (t ≤ io.mark_time) × Runs now db t (handle_envelope io env ctx rt db).1
  handle_envelope-Runs io env ctx now db le later =
      let claimed = (claim io env ctx db).1 in
      let first = claims io env ctx now db le in
      handle_envelope_cases (λ s. (t : ℕ) × (t ≤ io.mark_time) × Runs now db t s) io env ctx rt db
        (
          io.claim_time,
          later,
          step now io.claim_time io.claim_time db claimed claimed first
              (rest io.claim_time claimed),
        )
        λ result. (
          io.mark_time,
          omega arith,
          step now io.claim_time io.mark_time db claimed _ first (
              step io.claim_time io.mark_time io.mark_time claimed _ _
                (settles io env ctx result io.claim_time claimed later) (rest io.mark_time _)),
        )
