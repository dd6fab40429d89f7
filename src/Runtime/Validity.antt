-- ===== src/Runtime/Validity.antt =====
-- The worker's writes against the CHECKs of the schema.
use rust_events.Base.{◌≤◌, ◌≡◌, Bool, true, Result}
use rust_events.Handler.{HandlerEnvelope, HandlerError}
use rust_events.Schema.{Db, Delivery}
use rust_events.Schema.Valid.{IsValid, AreValid, AreValid-mono}
use rust_events.Runtime.Jobs.{JobContext}
use rust_events.Runtime.Marks.{is_fenced}
use rust_events.Runtime.Claim.{clamp_i32}
use rust_events.Runtime.Statements.{
  over_cases, claim_delivery-AreValid, update_where-AreValid, update_deliveries_lem,
}
use rust_events.Runtime.Verdict.{finish, finish-IsValid, settle_state}
use rust_events.Runtime.Cases.{claim_state_lem, handle_envelope_cases}
use rust_events.Runtime.{WorkerIo, OutboxRuntime, settle, claim, handle_envelope}

module _ {B M : Type 0} (io : WorkerIo) (env : HandlerEnvelope) (ctx : JobContext)
    (rt : OutboxRuntime B M) (db : Db M) where
  pub claim-AreValid :
      AreValid io.claim_time db.deliveries
      → AreValid io.claim_time (claim io env ctx db).1.deliveries
  claim-AreValid v = rw (claim_state_lem io env ctx db) (
      over_cases (λ s. AreValid io.claim_time s.deliveries) io.claim_wire _ db v
        (claim_delivery-AreValid io.claim_time env.event_id env.handler_id (clamp_i32 ctx.attempt)
          ctx.lease_token db v))

  pub settle-AreValid :
      (db' : Db M) (result : Result (Unit {0}) HandlerError)
      → AreValid io.mark_time db'.deliveries
      → AreValid io.mark_time (settle io env ctx result db').1.deliveries
  settle-AreValid db' result v = rw (settle_state io env ctx db' result) (
      over_cases (λ s. AreValid io.mark_time s.deliveries) io.mark_wire _ db' v
        (rw (update_deliveries_lem io.mark_time fence _ db' v keeps)
          (update_where-AreValid io.mark_time fence _ db' v keeps)))
    where
      fence : Delivery → Bool
      fence = is_fenced env.event_id env.handler_id ctx.lease_token

      keeps :
          (d : Delivery)
          → IsValid io.mark_time d
          → fence d ≡ true
          → IsValid io.mark_time (finish ctx io.mark_time result d)
      keeps d u h =
          finish-IsValid ctx io.mark_time result env.event_id ctx.lease_token env.handler_id d u h

  -- Handling a job keeps every delivery row within the CHECKs of the schema and its times in the
  -- past, if the rows were so before and the clock does not run backwards between the claim and
  -- the mark: whatever the handler does, and whichever calls to the database fail.
  pub handle_envelope-AreValid :
      AreValid io.claim_time db.deliveries
      → io.claim_time ≤ io.mark_time
      → AreValid io.mark_time (handle_envelope io env ctx rt db).1.deliveries
  handle_envelope-AreValid v h =
      let claimed = AreValid-mono _ h (claim-AreValid v) in
      handle_envelope_cases (λ s. AreValid io.mark_time s.deliveries) io env ctx rt db claimed
        λ result. settle-AreValid (claim io env ctx db).1 result claimed
