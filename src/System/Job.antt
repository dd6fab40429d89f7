-- ===== src/System/Job.antt =====
-- The attempts of one job, while the rest of the library goes on around them. `pg_work_queue` is not
-- part of the repository: that it runs a job again is a hypothesis, in the words of README.md.
use rust_events.Base.{
  ℕ, suc, ◌≤◌, ◌≡◌, ◌⊎◌, Bool, true, false, Str, refl, sym, subst, inl, inr, Bool-cases, leb, ◌∙◌,
  arith,
}
use rust_events.Handler.{HandlerEnvelope}
use rust_events.Builder.{Outbox}
use rust_events.Schema.{Db, reply, is_delivery}
use rust_events.Schema.Status.{is_terminal}
use rust_events.Schema.Valid.{AreValid-mono}
use rust_events.Dispatch.Transaction.{Pusher, Json}
use rust_events.Runtime.Jobs.{JobContext}
use rust_events.Runtime.Outcome.{Answers}
use rust_events.Runtime.Attempts.{asks_again, queue_and_table_agree}
use rust_events.Runtime.Retries.{IsTransient, attempt_settles_or_asks}
use rust_events.Runtime.{WorkerIo, OutboxRuntime, claim, handle_envelope}
use rust_events.Runtime.Traces.{Runs, claims, rest, step, runs_keep_rows, handle_envelope-Runs}
use rust_events.System.Sound.{IsWellFormed, IsWellFormed-mono}
use rust_events.System.Losses.{IsPending, IsSettled, pending_or_settled, any_of_pending}
use rust_events.System.Workers.{any-AllPersist, Runs-IsWellFormed}
use rust_events.System.Pending.{any-select_where, pending_row, pending_event}
use rust_events.System.{SystemRuns}

-- Whether the worker's process stops during an attempt. The queue is not told then, and its reaper
-- takes the job back when the lease is over.
pub data Crash : Type 0 where
  no_crash before_the_mark after_the_mark : Crash

module _ {B M : Type 0} (rt : OutboxRuntime B M) (env : HandlerEnvelope) where
  -- What the attempt leaves.
  abbrev pub attempt_leaves : Crash → WorkerIo → JobContext → Db M → Db M
  attempt_leaves before_the_mark io ctx db = (claim io env ctx db).1
  attempt_leaves _ io ctx db = (handle_envelope io env ctx rt db).1

  -- The job is to be run again, if it has attempts left.
  abbrev pub is_wanted_again : Crash → WorkerIo → JobContext → Db M → Bool
  is_wanted_again no_crash io ctx db = asks_again (handle_envelope io env ctx rt db).0
  is_wanted_again _ io ctx db = true

module _ {B M : Type 0} (p : Pusher) (json : Json M) (outbox : Outbox B M) (rt : OutboxRuntime B M)
    (env : HandlerEnvelope) where
  -- Attempt `k` runs in the tables `before k`, from the moment `time k` on.
  pub record Attempts (t : ℕ) (db : Db M) : Type 1 where
    pub time : ℕ → ℕ
    pub before : ℕ → Db M
    pub io : ℕ → WorkerIo
    pub ctx : ℕ → JobContext
    pub crash : ℕ → Crash
    pub starts : SystemRuns p json outbox rt t db (time 0) (before 0)
    pub claims_after : (k : ℕ) → time k ≤ (io k).claim_time
    pub marks_after : (k : ℕ) → (io k).claim_time ≤ (io k).mark_time
    pub claim_passes : (k : ℕ) → IsTransient (io k).claim_wire
    pub mark_passes : (k : ℕ) → IsTransient (io k).mark_wire
    -- The last attempt has the server's answers, and the process goes on.
    pub last_answered :
        (k : ℕ)
        → leb (ctx k).max_attempts (ctx k).attempt ≡ true
        → ((io k).claim_wire ≡ reply) × ((io k).mark_wire ≡ reply) × (crash k ≡ no_crash)
    pub counts : (k : ℕ) → (ctx (suc k)).attempt ≡ suc (ctx k).attempt
    pub same_bound : (k : ℕ) → (ctx (suc k)).max_attempts ≡ (ctx k).max_attempts
    -- A job that is wanted again, and has attempts left, is run again, after whatever others do.
    pub redelivers :
        (k : ℕ)
        → is_wanted_again rt env (crash k) (io k) (ctx k) (before k) ≡ true
        → leb (ctx k).max_attempts (ctx k).attempt ≡ false
        → SystemRuns p json outbox rt
            (io k).mark_time
            (attempt_leaves rt env (crash k) (io k) (ctx k) (before k))
            (time (suc k))
            (before (suc k))

module _ {B M : Type 0} (rt : OutboxRuntime B M) (event_id : ℕ) (handler_id : Str) where
  -- Workers leave a delivery that is still to be made so, or settle it.
  Runs-IsPending :
      (t u : ℕ) (db db' : Db M)
      → Runs rt t db u db'
      → IsWellFormed t db
      → IsPending event_id handler_id db
      → IsWellFormed u db' × (IsPending event_id handler_id db' ⊎ IsSettled event_id handler_id db')
  Runs-IsPending t u db db' runs w h =
      let this = is_delivery event_id handler_id in
      let (_, k) = runs_keep_rows rt t u db db' runs w.sound.deliveries.valid in
      (
        Runs-IsWellFormed rt t u db db' runs w,
        pending_or_settled this db'.deliveries (
            any-AllPersist this this (λ d e m. ground (arith, m)) db.deliveries db'.deliveries k
            ∙ any_of_pending this db.deliveries h),
      )

module _ {B M : Type 0} (rt : OutboxRuntime B M) (env : HandlerEnvelope) (io : WorkerIo)
    (ctx : JobContext) where
  attempt_leaves-Runs :
      (c : Crash) (u : ℕ) (db : Db M)
      → u ≤ io.claim_time
      → io.claim_time ≤ io.mark_time
      → (v : ℕ) × (v ≤ io.mark_time) × Runs rt u db v (attempt_leaves rt env c io ctx db)
  attempt_leaves-Runs no_crash u db le later = handle_envelope-Runs rt io env ctx u db le later
  attempt_leaves-Runs after_the_mark u db le later =
      handle_envelope-Runs rt io env ctx u db le later
  attempt_leaves-Runs before_the_mark u db le later =
      let claimed = (claim io env ctx db).1 in
      (
        io.claim_time,
        later,
        step u io.claim_time io.claim_time db claimed claimed (claims io env ctx u db le)
            (rest io.claim_time claimed),
      )

  whatever_crash :
      (c : Crash) (db : Db M)
      → (asks_again (handle_envelope io env ctx rt db).0 ≡ true)
        ⊎ IsSettled env.event_id env.handler_id (handle_envelope io env ctx rt db).1
      → (is_wanted_again rt env c io ctx db ≡ true)
        ⊎ IsSettled env.event_id env.handler_id (attempt_leaves rt env c io ctx db)
  whatever_crash no_crash db h = h
  whatever_crash before_the_mark db h = inl refl
  whatever_crash after_the_mark db h = inl refl

module _ {B M : Type 0} (p : Pusher) (json : Json M) (outbox : Outbox B M) (rt : OutboxRuntime B M)
    (env : HandlerEnvelope) (t : ℕ) (db : Db M) (job : Attempts p json outbox rt env t db) where
  abbrev pub is_last_attempt : ℕ → Bool
  is_last_attempt k = leb (job.ctx k).max_attempts (job.ctx k).attempt

  abbrev pub after : ℕ → Db M
  after k = attempt_leaves rt env (job.crash k) (job.io k) (job.ctx k) (job.before k)

  abbrev pub wants_next : ℕ → Bool
  wants_next k = is_wanted_again rt env (job.crash k) (job.io k) (job.ctx k) (job.before k)

  -- One attempt, at a delivery that is still to be made.
  module _ (k : ℕ) (w : IsWellFormed (job.time k) (job.before k))
      (pending : IsPending env.event_id env.handler_id (job.before k)) where
    -- What it leaves the delivery.
    pub after-IsPending :
        IsWellFormed (job.io k).mark_time (after k)
        × (IsPending env.event_id env.handler_id (after k)
            ⊎ IsSettled env.event_id env.handler_id (after k))
    after-IsPending =
        let (v, bound, runs) =
          attempt_leaves-Runs rt env (job.io k) (job.ctx k) (job.crash k) (job.time k)
            (job.before k) (job.claims_after k) (job.marks_after k) in
        let (wv, either) =
          Runs-IsPending rt env.event_id env.handler_id (job.time k) v (job.before k) (after k) runs
            w pending in
        (IsWellFormed-mono (after k) bound wv, either)

    pub attempt_settles :
        ((is_last_attempt k ≡ false) × (wants_next k ≡ true))
        ⊎ IsSettled env.event_id env.handler_id (after k)
    attempt_settles =
        let mid = job.before k in
        let io = job.io k in
        let u = job.time k in
        let (d, found, active) = pending_row env.event_id env.handler_id u mid w pending in
        let (ev, has_event) = pending_event env.event_id env.handler_id u mid w pending in
        let valid = AreValid-mono mid.deliveries (job.claims_after k) w.sound.deliveries.valid in
        let unique = w.sound.deliveries.rows_distinct in
        let ran = (handle_envelope io env (job.ctx k) rt mid).1 in
        let over =
          any-select_where (is_delivery env.event_id env.handler_id) (λ x. is_terminal x.status)
            ran.deliveries in
        elim (Bool-cases (is_last_attempt k)) [
          | inl last ↦
              let (claimed, marked, alive) = job.last_answered k last in
              let answers : Answers io = record {
                claim_answered = claimed;
                mark_answered = marked;
                in_order = job.marks_after k;
              } in
              let settled : IsSettled env.event_id env.handler_id ran = ground (
                arith,
                last,
                over,
                queue_and_table_agree io env (job.ctx k) rt mid answers valid ev d unique has_event
                    found,
              ) in
              inr (
                subst
                  (λ c.
                    IsSettled env.event_id env.handler_id
                      (attempt_leaves rt env c io (job.ctx k) mid))
                  (sym alive) settled)
          | inr more ↦
              let either : (asks_again (handle_envelope io env (job.ctx k) rt mid).0 ≡ true)
                  ⊎ IsSettled env.event_id env.handler_id ran =
                ground (
                  arith,
                  over,
                  attempt_settles_or_asks io env (job.ctx k) rt mid valid ev d unique has_event
                      found active (job.claim_passes k) (job.mark_passes k) (job.marks_after k),
                ) in
              elim (whatever_crash rt env io (job.ctx k) (job.crash k) mid either) [
                | inl wanted ↦ inl (more, wanted)
                | inr settled ↦ inr settled
              ]
        ]
