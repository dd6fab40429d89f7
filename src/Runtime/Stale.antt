-- ===== src/Runtime/Stale.antt =====
-- A worker that was overtaken, in the midst of any others.
use rust_events.Base.{
  ℕ, ◌≡◌, ◌≢◌, Bool, true, false, inl, inr, Str, Result, ok, err, Bool-cases, update_where-All,
  update_passes, arith,
}
use rust_events.Handler.{HandlerEnvelope, HandlerError, retry_error, skip_error, abort_error}
use rust_events.Schema.{Db, Delivery, deliveries_check}
use rust_events.Runtime.Jobs.{JobContext}
use rust_events.Runtime.Marks.{is_fenced, update_deliveries}
use rust_events.Runtime.Claim.{is_claimable, set_running, clamp_i32, claim_delivery}
use rust_events.Runtime.Statements.{over_cases}
use rust_events.Runtime.Verdict.{finish, settle_state}
use rust_events.Runtime.Cases.{claim_state_lem}
use rust_events.Runtime.Fencing.{IsFencedOut, settle_fenced_out}
use rust_events.Runtime.Traces.{Step, Runs, claims, settles, rest, step}
use rust_events.Runtime.{WorkerIo, OutboxRuntime, settle}

-- Whatever the verdict, the row is not running any more.
finish-is_fenced :
    (ctx : JobContext) (now event_id stale : ℕ) (handler_id : Str)
    (result : Result (Unit {0}) HandlerError) (d : Delivery)
    → is_fenced event_id handler_id stale (finish ctx now result d) ≡ false
finish-is_fenced ctx now event_id stale handler_id (ok _) d = ground arith
finish-is_fenced ctx now event_id stale handler_id (err (retry_error reason _)) d = ground arith
finish-is_fenced ctx now event_id stale handler_id (err (skip_error reason)) d = ground arith
finish-is_fenced ctx now event_id stale handler_id (err (abort_error reason)) d = ground arith

module _ {M : Type 0} (event_id stale : ℕ) (handler_id : Str) where
  update_deliveries-IsFencedOut :
      (p : Delivery → Bool) (f : Delivery → Delivery) (db : Db M)
      → ((d : Delivery)
          → is_fenced event_id handler_id stale d ≡ false
          → p d ≡ true
          → is_fenced event_id handler_id stale (f d) ≡ false)
      → IsFencedOut event_id handler_id stale db.deliveries
      → IsFencedOut event_id handler_id stale (update_deliveries p f db).1.deliveries
  unfolding update_deliveries
  update_deliveries-IsFencedOut p f db keeps h =
      let Out : Delivery → Type 0 = λ d. is_fenced event_id handler_id stale d ≡ false in
      elim (Bool-cases (update_passes deliveries_check p f db.deliveries)) [
        | inl e ↦ rw e (update_where-All Out Out p f db.deliveries keeps (λ d o. o) h)
        | inr e ↦ rw e h
      ]

  claim_delivery-IsFencedOut :
      (now other_event attempt token : ℕ) (other_handler : Str) (db : Db M)
      → token ≢ stale
      → IsFencedOut event_id handler_id stale db.deliveries
      → IsFencedOut event_id handler_id stale
          (claim_delivery now other_event other_handler attempt token db).1.deliveries
  unfolding claim_delivery
  claim_delivery-IsFencedOut now other_event attempt token other_handler db fresh h =
      let Out : Delivery → Type 0 = λ d. is_fenced event_id handler_id stale d ≡ false in
      let p = is_claimable other_event other_handler in
      let f = set_running now attempt token in
      elim (Bool-cases (update_passes deliveries_check p f db.deliveries)) [
        | inl e ↦ rw e (
            update_where-All Out Out p f db.deliveries (λ d o c. ground (arith, fresh)) (λ d o. o)
              h)
        | inr e ↦ rw e h
      ]

module _ {B M : Type 0} (rt : OutboxRuntime B M) (event_id stale : ℕ) (handler_id : Str) where
  -- No claim of the run is under the token.
  abbrev pub NeverClaimedBy : {t u : ℕ} {db db' : Db M} → Runs rt t db u db' → Type 0
  NeverClaimedBy (rest _ _) = Unit
  NeverClaimedBy (step _ _ _ _ _ _ (claims io env ctx _ _ _) runs) =
      (ctx.lease_token ≢ stale) × NeverClaimedBy runs
  NeverClaimedBy (step _ _ _ _ _ _ (settles io env ctx result _ _ _) runs) = NeverClaimedBy runs

  NeverClaimedBy-tail :
      (t u v : ℕ) (db db' db'' : Db M) (s : Step rt t db u db') (runs : Runs rt u db' v db'')
      → NeverClaimedBy (step t u v db db' db'' s runs)
      → NeverClaimedBy runs
  NeverClaimedBy-tail t u v db db' db'' (claims _ _ _ _ _ _) runs n = n.1
  NeverClaimedBy-tail t u v db db' db'' (settles _ _ _ _ _ _ _) runs n = n

  Step-IsFencedOut :
      (t u v : ℕ) (db db' db'' : Db M) (s : Step rt t db u db') (runs : Runs rt u db' v db'')
      → NeverClaimedBy (step t u v db db' db'' s runs)
      → IsFencedOut event_id handler_id stale db.deliveries
      → IsFencedOut event_id handler_id stale db'.deliveries
  Step-IsFencedOut t u v db db' db'' (claims io env ctx _ _ _) runs (fresh, _) h =
      rw (claim_state_lem io env ctx db) (
        over_cases (λ s. IsFencedOut event_id handler_id stale s.deliveries) io.claim_wire _ db h
          (claim_delivery-IsFencedOut event_id stale handler_id io.claim_time env.event_id
            (clamp_i32 ctx.attempt) ctx.lease_token env.handler_id db fresh h))
  Step-IsFencedOut t u v db db' db'' (settles io env ctx result _ _ _) runs _ h =
      rw (settle_state io env ctx db result) (
        over_cases (λ s. IsFencedOut event_id handler_id stale s.deliveries) io.mark_wire _ db h
          (update_deliveries-IsFencedOut event_id stale handler_id _ _ db
            (λ d _ _. finish-is_fenced ctx io.mark_time event_id stale handler_id result d) h))

  Runs-IsFencedOut :
      (t u : ℕ) (db db' : Db M) (runs : Runs rt t db u db')
      → NeverClaimedBy runs
      → IsFencedOut event_id handler_id stale db.deliveries
      → IsFencedOut event_id handler_id stale db'.deliveries
  Runs-IsFencedOut t u db db' (rest _ _) n h = h
  Runs-IsFencedOut t u db db' (step _ w _ _ mid _ s runs) n h =
      Runs-IsFencedOut w u mid db' runs (NeverClaimedBy-tail t w u db mid db' s runs n)
        (Step-IsFencedOut t w u db mid db' s runs n h)

-- A lease that no row carries any more is worth nothing for ever: as long as no claim is made under
-- its token, whatever other workers do in the meantime, a verdict under it changes nothing.
pub stale_verdict_is_void :
    {B M : Type 0} (rt : OutboxRuntime B M) (io : WorkerIo) (env : HandlerEnvelope)
    (ctx : JobContext) (result : Result (Unit {0}) HandlerError) (t u : ℕ) (db db' : Db M)
    (runs : Runs rt t db u db')
    → NeverClaimedBy rt env.event_id ctx.lease_token env.handler_id runs
    → IsFencedOut env.event_id env.handler_id ctx.lease_token db.deliveries
    → (settle io env ctx result db').1 ≡ db'
stale_verdict_is_void rt io env ctx result t u db db' runs never out =
    settle_fenced_out io env ctx result db'
      (Runs-IsFencedOut rt env.event_id ctx.lease_token env.handler_id t u db db' runs never out)
