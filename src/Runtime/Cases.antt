-- ===== src/Runtime/Cases.antt =====
-- The two statements of `handle_envelope`: what holds after the claim and is kept by the mark holds
-- at the end.
use rust_events.Base.{
  ◌≡◌, refl, inl, inr, none, some, str, Result, err, Result-cases, Option-cases, ◌>>=◌, subst, sym,
}
use rust_events.Handler.{HandlerEnvelope, HandlerError, abort_error}
use rust_events.Registry.{find_handler}
use rust_events.Schema.{Db, over}
use rust_events.Runtime.Jobs.{JobContext}
use rust_events.Runtime.Claim.{Row, clamp_i32, claim_delivery}
use rust_events.Runtime.Verdict.{mark_unregistered_state}
use rust_events.Runtime.{
  WorkerIo, OutboxRuntime, ClaimState, audit_missing, already_terminal, update_collision, proceed,
  claim_state, settle, invoke, deliver, after_claim, claim, handle_envelope,
}

pub claim_state_lem :
    {M : Type 0} (io : WorkerIo) (env : HandlerEnvelope) (ctx : JobContext) (db : Db M)
    → (claim io env ctx db).1
      ≡ (over io.claim_wire
          (claim_delivery io.claim_time env.event_id env.handler_id
            (clamp_i32 ctx.attempt)
            ctx.lease_token)
          db).1
unfolding claim
claim_state_lem io env ctx db = refl

module _ {ℓ} {B M : Type 0} (P : Db M → Type ℓ) (io : WorkerIo) (env : HandlerEnvelope)
    (ctx : JobContext) (rt : OutboxRuntime B M) where
  deliver_cases :
      (row : Row M) (db : Db M)
      → ((result : Result (Unit {0}) HandlerError) → P (settle io env ctx result db).1)
      → P (deliver io env ctx rt row db).1
  unfolding deliver
  deliver_cases row db settled = elim (Option-cases (find_handler rt.registry env.handler_id)) [
    | inl e ↦
        rw (e, deliver)
          (subst P (sym (mark_unregistered_state io env ctx db))
            (settled (err (abort_error (str "handler not registered")))))
    | inr (h, e) ↦ rw (e, deliver) (settled (invoke io env ctx rt h row))
  ]

  after_claim_cases :
      (row : Row M) (s : ClaimState) (db : Db M)
      → claim_state row.prev_status row.did_update ≡ s
      → P db
      → ((result : Result (Unit {0}) HandlerError) → P (settle io env ctx result db).1)
      → P (after_claim io env ctx rt row db).1
  unfolding after_claim
  after_claim_cases row audit_missing db e claimed settled = rw (e, after_claim) claimed
  after_claim_cases row already_terminal db e claimed settled = rw (e, after_claim) claimed
  after_claim_cases row update_collision db e claimed settled = rw (e, after_claim) claimed
  after_claim_cases row proceed db e claimed settled =
      rw (e, after_claim) (deliver_cases row db settled)

  pub handle_envelope_cases :
      (db : Db M)
      → P (claim io env ctx db).1
      → ((result : Result (Unit {0}) HandlerError)
          → P (settle io env ctx result (claim io env ctx db).1).1)
      → P (handle_envelope io env ctx rt db).1
  unfolding handle_envelope
  handle_envelope_cases db claimed settled = elim (Result-cases (claim io env ctx db).0) [
    | inl (none, e) ↦ rw (e, ◌>>=◌) claimed
    | inl (some row, e) ↦
        rw (e, ◌>>=◌)
          (after_claim_cases row (claim_state row.prev_status row.did_update) _ refl claimed
            settled)
    | inr (x, e) ↦ rw (e, ◌>>=◌) claimed
  ]
