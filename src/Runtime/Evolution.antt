-- ===== src/Runtime/Evolution.antt =====
-- How the rows of `outbox.handler_deliveries` may change while a worker handles a job, whatever the
-- handler does, whatever fails, and whoever holds the lease.
use rust_events.Base.{
  ℕ, ◌≤◌, ◌≡◌, Bool, true, false, inl, inr, List, [], ◌∷◌, Str, Result, ok, err, is_some,
  update_where, update_passes, Bool-cases, arith,
}
use rust_events.Handler.{HandlerEnvelope, HandlerError, retry_error, skip_error, abort_error}
use rust_events.Schema.{Db, Delivery, is_delivery, deliveries_check}
use rust_events.Schema.Status.{is_terminal}
use rust_events.Runtime.Jobs.{JobContext}
use rust_events.Runtime.Marks.{is_fenced, update_deliveries}
use rust_events.Runtime.Claim.{set_running, is_claimable, clamp_i32, claim_delivery}
use rust_events.Runtime.Statements.{over_cases}
use rust_events.Runtime.Verdict.{finish, settle_state}
use rust_events.Runtime.Cases.{claim_state_lem, handle_envelope_cases}
use rust_events.Runtime.{WorkerIo, OutboxRuntime, settle, claim, handle_envelope}

-- A row keeps its identity; it keeps everything if it is terminal or is another delivery's; its
-- attempts do not fall, and its first attempt stays when it was.
pub record Evolves (event_id : ℕ) (handler_id : Str) (d d' : Delivery) : Type 0 where
  pub same_id : d'.id ≡ d.id
  pub same_event : d'.event_id ≡ d.event_id
  pub same_handler : d'.handler_id ≡ d.handler_id
  pub same_creation : d'.created_at ≡ d.created_at
  pub terminal_stays : is_terminal d.status ≡ true → d' ≡ d
  pub others_stay : is_delivery event_id handler_id d ≡ false → d' ≡ d
  pub attempts_grow : d.attempts ≤ d'.attempts
  pub first_kept :
      is_some d.first_attempted_at ≡ true → d'.first_attempted_at ≡ d.first_attempted_at

-- Row by row, and no row comes or goes.
abbrev pub AllEvolve : ℕ → Str → List Delivery → List Delivery → Type 0
AllEvolve event_id handler_id [] [] = Unit
AllEvolve event_id handler_id [] (_ ∷ _) = ⊥
AllEvolve event_id handler_id (_ ∷ _) [] = ⊥
AllEvolve event_id handler_id (d ∷ ds) (d' ∷ ds') =
    Evolves event_id handler_id d d' × AllEvolve event_id handler_id ds ds'

module _ (event_id : ℕ) (handler_id : Str) where
  Evolves-refl : (d : Delivery) → Evolves event_id handler_id d d
  Evolves-refl d = ground arith

  Evolves-trans :
      {d e f : Delivery}
      → Evolves event_id handler_id d e
      → Evolves event_id handler_id e f
      → Evolves event_id handler_id d f
  Evolves-trans {d} {e} {f} h k = ground arith

  pub AllEvolve-refl : (ds : List Delivery) → AllEvolve event_id handler_id ds ds
  AllEvolve-refl [] = tt
  AllEvolve-refl (d ∷ ds) = (Evolves-refl d, AllEvolve-refl ds)

  AllEvolve-trans :
      (ds es fs : List Delivery)
      → AllEvolve event_id handler_id ds es
      → AllEvolve event_id handler_id es fs
      → AllEvolve event_id handler_id ds fs
  AllEvolve-trans [] [] [] h k = tt
  AllEvolve-trans (d ∷ ds) (e ∷ es) (f ∷ fs) h k =
      (Evolves-trans h.0 k.0, AllEvolve-trans ds es fs h.1 k.1)
  AllEvolve-trans [] [] (_ ∷ _) h k = k
  AllEvolve-trans [] (_ ∷ _) fs h k = absurd h
  AllEvolve-trans (_ ∷ _) [] fs h k = absurd h
  AllEvolve-trans (_ ∷ _) (_ ∷ _) [] h k = absurd k

  update_where-AllEvolve :
      (p : Delivery → Bool) (f : Delivery → Delivery) (ds : List Delivery)
      → ((d : Delivery) → p d ≡ true → Evolves event_id handler_id d (f d))
      → AllEvolve event_id handler_id ds (update_where p f ds)
  update_where-AllEvolve p f [] h = tt
  update_where-AllEvolve p f (d ∷ ds) h = elim (Bool-cases (p d)) [
    | inl e ↦ rw e (h d e, update_where-AllEvolve p f ds h)
    | inr e ↦ rw e (Evolves-refl d, update_where-AllEvolve p f ds h)
  ]

  set_running-Evolves :
      (now attempt token : ℕ) (d : Delivery)
      → is_claimable event_id handler_id d ≡ true
      → Evolves event_id handler_id d (set_running now attempt token d)
  set_running-Evolves now attempt token d h = ground arith

  finish-Evolves :
      (ctx : JobContext) (now token : ℕ) (result : Result (Unit {0}) HandlerError) (d : Delivery)
      → is_fenced event_id handler_id token d ≡ true
      → Evolves event_id handler_id d (finish ctx now result d)
  finish-Evolves ctx now token (ok _) d h = ground arith
  finish-Evolves ctx now token (err (retry_error reason _)) d h = ground arith
  finish-Evolves ctx now token (err (skip_error reason)) d h = ground arith
  finish-Evolves ctx now token (err (abort_error reason)) d h = ground arith

module _ {M : Type 0} (event_id : ℕ) (handler_id : Str) where
  update_deliveries-AllEvolve :
      (p : Delivery → Bool) (f : Delivery → Delivery) (db : Db M)
      → ((d : Delivery) → p d ≡ true → Evolves event_id handler_id d (f d))
      → AllEvolve event_id handler_id db.deliveries (update_deliveries p f db).1.deliveries
  unfolding update_deliveries
  update_deliveries-AllEvolve p f db h =
      elim (Bool-cases (update_passes deliveries_check p f db.deliveries)) [
        | inl e ↦ rw e (update_where-AllEvolve event_id handler_id p f db.deliveries h)
        | inr e ↦ rw e (AllEvolve-refl event_id handler_id db.deliveries)
      ]

  claim_delivery-AllEvolve :
      (now attempt token : ℕ) (db : Db M)
      → AllEvolve event_id handler_id db.deliveries
          (claim_delivery now event_id handler_id attempt token db).1.deliveries
  unfolding claim_delivery
  claim_delivery-AllEvolve now attempt token db =
      let p = is_claimable event_id handler_id in
      let f = set_running now attempt token in
      elim (Bool-cases (update_passes deliveries_check p f db.deliveries)) [
        | inl e ↦ rw e (
            update_where-AllEvolve event_id handler_id p f db.deliveries
              (set_running-Evolves event_id handler_id now attempt token))
        | inr e ↦ rw e (AllEvolve-refl event_id handler_id db.deliveries)
      ]

module _ {B M : Type 0} (io : WorkerIo) (env : HandlerEnvelope) (ctx : JobContext)
    (rt : OutboxRuntime B M) (db : Db M) where
  abbrev pub Later : Db M → Type 0
  Later db' = AllEvolve env.event_id env.handler_id db.deliveries db'.deliveries

  pub claim-Later : Later (claim io env ctx db).1
  claim-Later = rw (claim_state_lem io env ctx db) (
      over_cases Later io.claim_wire _ db (AllEvolve-refl env.event_id env.handler_id db.deliveries)
        (claim_delivery-AllEvolve env.event_id env.handler_id io.claim_time (clamp_i32 ctx.attempt)
          ctx.lease_token db))

  pub settle-Later :
      (db' : Db M) (result : Result (Unit {0}) HandlerError)
      → Later db'
      → Later (settle io env ctx result db').1
  settle-Later db' result h = rw (settle_state io env ctx db' result) (
      over_cases Later io.mark_wire _ db' h (
        AllEvolve-trans env.event_id env.handler_id db.deliveries db'.deliveries _ h (
          update_deliveries-AllEvolve env.event_id env.handler_id _ _ db'
            (finish-Evolves env.event_id env.handler_id ctx io.mark_time ctx.lease_token result))))

  -- While a worker handles a job, whatever its handler does and whichever calls to the database
  -- fail, no delivery row comes or goes, and each row keeps its id, event, handler and creation
  -- time, its first attempt time once set, and at least its attempts. A row that is sent, skipped
  -- or dead is left as it is, and so is every row but the one the job names.
  pub handle_envelope-AllEvolve :
      AllEvolve env.event_id env.handler_id db.deliveries
        (handle_envelope io env ctx rt db).1.deliveries
  handle_envelope-AllEvolve =
      handle_envelope_cases Later io env ctx rt db claim-Later
        λ result. settle-Later (claim io env ctx db).1 result claim-Later
