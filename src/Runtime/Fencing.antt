-- ===== src/Runtime/Fencing.antt =====
-- The fence of the marks of src/runtime.rs, after another claim of the delivery.
use rust_events.Base.{
  ℕ, ◌≡◌, ◌≢◌, refl, Bool, true, false, inl, inr, List, Str, Result, update_where, update_passes,
  All, Bool-cases, update_where_none, arith,
}
use rust_events.Handler.{HandlerEnvelope, HandlerError}
use rust_events.Schema.{Db, Delivery, deliveries_check}
use rust_events.Schema.Valid.{AreValid}
use rust_events.Runtime.Jobs.{JobContext}
use rust_events.Runtime.Marks.{is_fenced, update_deliveries}
use rust_events.Runtime.Claim.{set_running, is_claimable, claim_delivery}
use rust_events.Runtime.Statements.{over_cases, claim_delivery_lem}
use rust_events.Runtime.Verdict.{finish, settle_state}
use rust_events.Runtime.{WorkerIo, settle}

-- No row of the delivery is running under the token.
abbrev pub IsFencedOut : ℕ → Str → ℕ → List Delivery → Type 0
IsFencedOut event_id handler_id token = All (λ d. is_fenced event_id handler_id token d ≡ false)

update_deliveries_none :
    {M : Type 0} (p : Delivery → Bool) (f : Delivery → Delivery) (db : Db M)
    → All (λ d. p d ≡ false) db.deliveries
    → (update_deliveries p f db).1 ≡ db
unfolding update_deliveries
update_deliveries_none p f db h =
    let same = update_where_none (λ d. p d ≡ false) p f db.deliveries (λ d e. e) h in
    elim (Bool-cases (update_passes deliveries_check p f db.deliveries)) [
      | inl e ↦ rw (e, same)
      | inr e ↦ rw e
    ]

module _ (event_id now attempt token stale : ℕ) (handler_id : Str) (other : token ≢ stale) where
  claimed-is_fenced :
      (d : Delivery)
      → is_claimable event_id handler_id d ≡ true
      → is_fenced event_id handler_id stale (set_running now attempt token d) ≡ false
  claimed-is_fenced d h = ground arith

  unclaimed-is_fenced :
      (d : Delivery)
      → is_claimable event_id handler_id d ≡ false
      → is_fenced event_id handler_id stale d ≡ false
  unclaimed-is_fenced d h = ground arith

  claimed-IsFencedOut :
      (ds : List Delivery)
      → IsFencedOut event_id handler_id stale
          (update_where (is_claimable event_id handler_id) (set_running now attempt token) ds)
  claimed-IsFencedOut List.[] = tt
  claimed-IsFencedOut (List.◌∷◌ d ds) = elim (Bool-cases (is_claimable event_id handler_id d)) [
    | inl e ↦ rw e (claimed-is_fenced d e, claimed-IsFencedOut ds)
    | inr e ↦ rw e (unclaimed-is_fenced d e, claimed-IsFencedOut ds)
  ]

module _ {M : Type 0} (io : WorkerIo) (env : HandlerEnvelope) (ctx : JobContext) where
  -- A mark that fits no row changes nothing.
  pub settle_fenced_out :
      (result : Result (Unit {0}) HandlerError) (db : Db M)
      → IsFencedOut env.event_id env.handler_id ctx.lease_token db.deliveries
      → (settle io env ctx result db).1 ≡ db
  settle_fenced_out result db h =
      rw (settle_state io env ctx db result)
        (over_cases (λ s. s ≡ db) io.mark_wire _ db refl unchanged)
    where
      fence : Delivery → Bool
      fence = is_fenced env.event_id env.handler_id ctx.lease_token

      unchanged : (update_deliveries fence (finish ctx io.mark_time result) db).1 ≡ db
      unchanged = update_deliveries_none fence _ db h

  -- In a database of valid rows, once a claim of a delivery under another token has gone through,
  -- the verdict of a worker that still holds the older token changes nothing in the database,
  -- whatever the verdict is.
  pub settle_after_takeover :
      (result : Result (Unit {0}) HandlerError) (now attempt token : ℕ) (db : Db M)
      → AreValid now db.deliveries
      → token ≢ ctx.lease_token
      → let taken = (claim_delivery now env.event_id env.handler_id attempt token db).1 in
        (settle io env ctx result taken).1 ≡ taken
  settle_after_takeover result now attempt token db v other =
      rw (claim_delivery_lem now env.event_id env.handler_id attempt token db v) (
        settle_fenced_out result _ (
          claimed-IsFencedOut env.event_id now attempt token ctx.lease_token env.handler_id other
            db.deliveries))
