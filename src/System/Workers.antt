-- ===== src/System/Workers.antt =====
-- A worker's step writes to the deliveries alone, and keeps their keys.
use rust_events.Base.{ℕ, ◌≡◌, refl, subst, Bool, Str, List, [], ◌∷◌, All, any, AreDistinct, arith}
use rust_events.Schema.{Db, EventRow, Delivery}
use rust_events.Schema.Valid.{AreValid}
use rust_events.Purge.Statements.{same_delivery}
use rust_events.Runtime.{OutboxRuntime}
use rust_events.Runtime.Cases.{claim_state_lem}
use rust_events.Runtime.Verdict.{settle_state}
use rust_events.Runtime.Claim.{clamp_i32, claim_delivery}
use rust_events.Runtime.Marks.{update_deliveries}
use rust_events.Runtime.Statements.{over_cases}
use rust_events.Runtime.Traces.{
  Step, Runs, step, rest, claims, settles, Persists, AllPersist, runs_keep_rows,
}
use rust_events.System.Sound.{same_row, DeliveriesAreSound, IsWellFormed}

-- What is true of a row by its key columns.
All-AllPersist :
    (P : Delivery → Type 0)
    → ((d d' : Delivery) → Persists d d' → P d → P d')
    → (ds es : List Delivery) → AllPersist ds es
    → All P ds
    → All P es
All-AllPersist P f [] [] k h = tt
All-AllPersist P f (d ∷ ds) (e ∷ es) k h = (f d e k.0 h.0, All-AllPersist P f ds es k.1 h.1)
All-AllPersist P f [] (_ ∷ _) k h = absurd k
All-AllPersist P f (_ ∷ _) [] k h = absurd k

pub any-AllPersist :
    (f g : Delivery → Bool)
    → ((d d' : Delivery) → Persists d d' → f d' ≡ g d)
    → (ds es : List Delivery) → AllPersist ds es
    → any f es ≡ any g ds
any-AllPersist f g h [] [] k = refl
any-AllPersist f g h (d ∷ ds) (e ∷ es) k = ground (arith, h d e k.0, any-AllPersist f g h ds es k.1)
any-AllPersist f g h [] (_ ∷ _) k = absurd k
any-AllPersist f g h (_ ∷ _) [] k = absurd k

AreDistinct-AllPersist :
    (same : Delivery → Delivery → Bool)
    → ((d d' e e' : Delivery) → Persists d d' → Persists e e' → same d' e' ≡ same d e)
    → (ds es : List Delivery) → AllPersist ds es
    → AreDistinct same ds
    → AreDistinct same es
AreDistinct-AllPersist same h [] [] k s = tt
AreDistinct-AllPersist same h (d ∷ ds) (e ∷ es) k s = (
  ground (arith, any-AllPersist (same e) (same d) (λ x y. h d e x y k.0) ds es k.1, s.0),
  AreDistinct-AllPersist same h ds es k.1 s.1,
)
AreDistinct-AllPersist same h [] (_ ∷ _) k s = absurd k
AreDistinct-AllPersist same h (_ ∷ _) [] k s = absurd k

module _ {M : Type 0} where
  -- The other tables.
  abbrev AreSame : Db M → Db M → Type 0
  AreSame db db' =
      (db.events ≡ db'.events)
      × (db.dispatch_keys ≡ db'.dispatch_keys)
      × (db.next_delivery_id ≡ db'.next_delivery_id)

  update_deliveries-AreSame :
      (p : Delivery → Bool) (f : Delivery → Delivery) (db : Db M)
      → AreSame db (update_deliveries p f db).1
  unfolding update_deliveries
  update_deliveries-AreSame p f db = ground arith

  claim_delivery-AreSame :
      (now event_id attempt token : ℕ) (handler_id : Str) (db : Db M)
      → AreSame db (claim_delivery now event_id handler_id attempt token db).1
  unfolding claim_delivery
  claim_delivery-AreSame now event_id attempt token handler_id db = ground arith

module _ {B M : Type 0} (rt : OutboxRuntime B M) where
  Step-AreSame : (t u : ℕ) (db db' : Db M) → Step rt t db u db' → AreSame db db'
  Step-AreSame t u db db' (claims io env ctx _ _ le) = rw (claim_state_lem io env ctx db) (
      over_cases (AreSame db) io.claim_wire _ db (refl, refl, refl)
        (claim_delivery-AreSame io.claim_time env.event_id (clamp_i32 ctx.attempt) ctx.lease_token
          env.handler_id db))
  Step-AreSame t u db db' (settles io env ctx result _ _ le) =
      rw (settle_state io env ctx db result) (
        over_cases (AreSame db) io.mark_wire _ db (refl, refl, refl)
          (update_deliveries-AreSame _ _ db))

  pub Step-AllPersist_of :
      (t u : ℕ) (db db' : Db M)
      → Step rt t db u db'
      → AreValid t db.deliveries
      → AreValid u db'.deliveries × AllPersist db.deliveries db'.deliveries
  Step-AllPersist_of t u db db' s v =
      runs_keep_rows rt t u db db' (step t u u db db' db' s (rest u db')) v

  persisted_sound :
      (now u next : ℕ) (es : List (EventRow M)) (ds ds' : List Delivery)
      → DeliveriesAreSound now next es ds
      → AreValid u ds'
      → AllPersist ds ds'
      → DeliveriesAreSound u next es ds'
  persisted_sound now u next es ds ds' s v k = record {
    valid = v;
    ids_below = All-AllPersist _ (λ d d' e h. ground (arith, h)) ds ds' k s.ids_below;
    ids_distinct =
        AreDistinct-AllPersist same_delivery (λ d d' e e' x y. ground arith) ds ds' k
          s.ids_distinct;
    rows_distinct =
        AreDistinct-AllPersist same_row (λ d d' e e' x y. ground arith) ds ds' k s.rows_distinct;
    referring = All-AllPersist _ (λ d d' e h. rw (e.same_event) h) ds ds' k s.referring;
  }

  pub Step-IsWellFormed :
      (t u : ℕ) (db db' : Db M) → Step rt t db u db' → IsWellFormed t db → IsWellFormed u db'
  Step-IsWellFormed t u db db' s w =
      let (es, ks, next) = Step-AreSame t u db db' s in
      let (v, k) = Step-AllPersist_of t u db db' s w.sound.deliveries.valid in
      let ds =
        persisted_sound t u db.next_delivery_id db.events db.deliveries db'.deliveries
          w.sound.deliveries v k in
      let same : record db { deliveries = db'.deliveries } ≡ db' = ground (arith, es, ks, next) in
      subst (IsWellFormed u) same (record {
        sound = record {
          deliveries = ds;
          events_distinct = w.sound.events_distinct;
          keys_distinct = w.sound.keys_distinct;
          key_events_distinct = w.sound.key_events_distinct;
        };
        keys_referring = w.keys_referring;
      })

  pub Runs-IsWellFormed :
      (t u : ℕ) (db db' : Db M) → Runs rt t db u db' → IsWellFormed t db → IsWellFormed u db'
  Runs-IsWellFormed t u db db' (rest _ _) w = w
  Runs-IsWellFormed t u db db' (step _ v _ _ mid _ s runs) w =
      Runs-IsWellFormed v u mid db' runs (Step-IsWellFormed t v db mid s w)
