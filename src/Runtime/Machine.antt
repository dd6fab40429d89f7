-- ===== src/Runtime/Machine.antt =====
-- The life of a delivery, as its status shows it.
use rust_events.Base.{
  ℕ, ◌≡◌, refl, Bool, true, false, inl, inr, Bool-cases, List, [], ◌∷◌, Str, Result, ok, err, leb,
  update_where, update_passes, arith,
}
use rust_events.Handler.{HandlerError, retry_error, skip_error, abort_error}
use rust_events.Schema.{Db, Delivery, deliveries_check}
use rust_events.Schema.Status.{
  DeliveryStatus, queued, running, awaiting_retry, sent, skipped, dead, is_terminal, is_running,
}
use rust_events.Runtime.Jobs.{JobContext}
use rust_events.Runtime.Marks.{update_deliveries, is_fenced}
use rust_events.Runtime.Claim.{is_claimable, set_running, clamp_i32, claim_delivery}
use rust_events.Runtime.Statements.{over_cases, is_fenced-is_running, is_claimable-is_terminal}
use rust_events.Runtime.Verdict.{finish, settle_state}
use rust_events.Runtime.Cases.{claim_state_lem}
use rust_events.Runtime.{OutboxRuntime}
use rust_events.Runtime.Traces.{Step, claims, settles}

-- The arrows of the state machine.
pub data Moves : DeliveryStatus → DeliveryStatus → Type 0 where
  starts : Moves queued running
  starts_again : Moves awaiting_retry running
  is_taken_over : Moves running running
  is_sent : Moves running sent
  waits : Moves running awaiting_retry
  is_skipped : Moves running skipped
  dies : Moves running dead

-- A row stays as it is or moves along an arrow.
pub data Lives (d d' : Delivery) : Type 0 where
  stays : d' ≡ d → Lives d d'
  moves : Moves d.status d'.status → Lives d d'

abbrev pub AllLive : List Delivery → List Delivery → Type 0
AllLive [] [] = Unit
AllLive [] (_ ∷ _) = ⊥
AllLive (_ ∷ _) [] = ⊥
AllLive (d ∷ ds) (d' ∷ ds') = Lives d d' × AllLive ds ds'

AllLive-refl : (ds : List Delivery) → AllLive ds ds
AllLive-refl [] = tt
AllLive-refl (d ∷ ds) = (stays refl, AllLive-refl ds)

update_where-AllLive :
    (p : Delivery → Bool) (f : Delivery → Delivery) (ds : List Delivery)
    → ((d : Delivery) → p d ≡ true → Moves d.status (f d).status)
    → AllLive ds (update_where p f ds)
update_where-AllLive p f [] h = tt
update_where-AllLive p f (d ∷ ds) h = elim (Bool-cases (p d)) [
  | inl e ↦ rw e (moves (h d e), update_where-AllLive p f ds h)
  | inr e ↦ rw e (stays refl, update_where-AllLive p f ds h)
]

to_running : (s : DeliveryStatus) → is_terminal s ≡ false → Moves s running
to_running queued h = starts
to_running running h = is_taken_over
to_running awaiting_retry h = starts_again
to_running sent h = absurd (ground (arith, h))
to_running skipped h = absurd (ground (arith, h))
to_running dead h = absurd (ground (arith, h))

from_running : (s t : DeliveryStatus) → is_running s ≡ true → Moves running t → Moves s t
from_running running t h m = m
from_running queued t h m = absurd (ground (arith, h))
from_running awaiting_retry t h m = absurd (ground (arith, h))
from_running sent t h m = absurd (ground (arith, h))
from_running skipped t h m = absurd (ground (arith, h))
from_running dead t h m = absurd (ground (arith, h))

finish-Moves :
    (ctx : JobContext) (now : ℕ) (result : Result (Unit {0}) HandlerError) (d : Delivery)
    → Moves running (finish ctx now result d).status
finish-Moves ctx now (ok _) d = is_sent
finish-Moves ctx now (err (retry_error reason delay)) d =
    elim (Bool-cases (leb ctx.max_attempts ctx.attempt)) [
      | inl last ↦ rw last dies
      | inr more ↦ rw more waits
    ]
finish-Moves ctx now (err (skip_error reason)) d = is_skipped
finish-Moves ctx now (err (abort_error reason)) d = dies

module _ {M : Type 0} where
  update_deliveries-AllLive :
      (p : Delivery → Bool) (f : Delivery → Delivery) (db : Db M)
      → ((d : Delivery) → p d ≡ true → Moves d.status (f d).status)
      → AllLive db.deliveries (update_deliveries p f db).1.deliveries
  unfolding update_deliveries
  update_deliveries-AllLive p f db h =
      elim (Bool-cases (update_passes deliveries_check p f db.deliveries)) [
        | inl e ↦ rw e (update_where-AllLive p f db.deliveries h)
        | inr e ↦ rw e (AllLive-refl db.deliveries)
      ]

  claim_delivery-AllLive :
      (now event_id attempt token : ℕ) (handler_id : Str) (db : Db M)
      → AllLive db.deliveries (claim_delivery now event_id handler_id attempt token db).1.deliveries
  unfolding claim_delivery
  claim_delivery-AllLive now event_id attempt token handler_id db =
      let p = is_claimable event_id handler_id in
      let f = set_running now attempt token in
      elim (Bool-cases (update_passes deliveries_check p f db.deliveries)) [
        | inl e ↦ rw e (
            update_where-AllLive p f db.deliveries
              (λ d h. to_running d.status (is_claimable-is_terminal event_id handler_id d h)))
        | inr e ↦ rw e (AllLive-refl db.deliveries)
      ]

-- A step of any worker, current or stale, and with any calls lost, refines the state machine of a
-- delivery: each row stays as it is, or its status moves from queued, running or awaiting_retry to
-- running, or from running to sent, awaiting_retry, skipped or dead. A verdict never skips the
-- claim, and nothing is queued again.
pub Step-AllLive :
    {B M : Type 0} (rt : OutboxRuntime B M) (t u : ℕ) (db db' : Db M)
    → Step rt t db u db'
    → AllLive db.deliveries db'.deliveries
Step-AllLive rt t u db db' (claims io env ctx _ _ le) = rw (claim_state_lem io env ctx db) (
    over_cases (λ s. AllLive db.deliveries s.deliveries) io.claim_wire _ db
      (AllLive-refl db.deliveries)
      (claim_delivery-AllLive io.claim_time env.event_id (clamp_i32 ctx.attempt) ctx.lease_token
        env.handler_id db))
Step-AllLive rt t u db db' (settles io env ctx result _ _ le) =
    rw (settle_state io env ctx db result) (
      over_cases (λ s. AllLive db.deliveries s.deliveries) io.mark_wire _ db
        (AllLive-refl db.deliveries)
        (update_deliveries-AllLive (is_fenced env.event_id env.handler_id ctx.lease_token)
          (finish ctx io.mark_time result) db
          (λ d h.
            from_running d.status (finish ctx io.mark_time result d).status
              (is_fenced-is_running env.event_id ctx.lease_token env.handler_id d h)
              (finish-Moves ctx io.mark_time result d))))
