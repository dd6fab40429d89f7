-- ===== src/Examples/Takeover.antt =====
-- Two workers at the order's mail: the second takes the delivery over, and the first, whose lease
-- has run out, still reports.
use rust_events.Base.{ℕ, ◌≡◌, refl, str, ok, arith}
use rust_events.Schema.{Db, deliveries_check, reply, over}
use rust_events.Schema.Valid.{AreValid}
use rust_events.Runtime.{WorkerIo, claim, settle}
use rust_events.Runtime.Traces.{Runs, rest, step, claims, settles, AllPersist, runs_keep_rows}
use rust_events.Runtime.Claim.{claim_delivery}
use rust_events.Runtime.Machine.{AllLive, Step-AllLive}
use rust_events.Runtime.Fencing.{IsFencedOut}
use rust_events.Runtime.Stale.{NeverClaimedBy, stale_verdict_is_void}
use rust_events.Examples.{runtime, tables, mail_job, attempt_under, worker_io}

abbrev second_io : WorkerIo
second_io = record { claim_wire = reply; claim_time = 8; mark_wire = reply; mark_time = 9 }

abbrev first_claimed : Db ℕ
first_claimed = (claim worker_io mail_job (attempt_under 9) tables).1

abbrev taken_over : Db ℕ
taken_over = (claim second_io mail_job (attempt_under 10) first_claimed).1

abbrev reported : Db ℕ
reported = (settle second_io mail_job (attempt_under 9) (ok tt) taken_over).1

two_workers-Runs : Runs runtime 1 tables 9 reported
two_workers-Runs =
    step 1 5 9 tables first_claimed reported
      (claims worker_io mail_job (attempt_under 9) 1 tables (omega arith))
      (step 5 8 9 first_claimed taken_over reported
        (claims second_io mail_job (attempt_under 10) 5 first_claimed (omega arith))
        (step 8 9 9 taken_over reported reported
          (settles second_io mail_job (attempt_under 9) (ok tt) 8 taken_over (omega arith))
          (rest 9 reported)))

fresh-AreValid : AreValid 1 tables.deliveries
unfolding deliveries_check
fresh-AreValid = (
  record {
    checked = refl;
    created_by = omega arith;
    updated_by = omega arith;
    first_by = tt;
    last_by = tt;
  },
  tt,
)

runs_keep_rows_example :
    AreValid 9 reported.deliveries × AllPersist tables.deliveries reported.deliveries
runs_keep_rows_example = runs_keep_rows runtime 1 9 tables reported two_workers-Runs fresh-AreValid

-- The second worker reports that the mail is sent.
abbrev second_reported : Db ℕ
second_reported = (settle second_io mail_job (attempt_under 10) (ok tt) taken_over).1

abbrev second_runs : Runs runtime 8 taken_over 9 second_reported
second_runs =
    step 8 9 9 taken_over second_reported second_reported
      (settles second_io mail_job (attempt_under 10) (ok tt) 8 taken_over (omega arith))
      (rest 9 second_reported)

first_lease_is_gone : IsFencedOut 7 (str "mail") 9 taken_over.deliveries
unfolding claim claim_delivery over deliveries_check
first_lease_is_gone = (refl, tt)

no_claim_by_first : NeverClaimedBy runtime 7 9 (str "mail") second_runs
no_claim_by_first = tt

stale_verdict_is_void_example :
    (settle second_io mail_job (attempt_under 9) (ok tt) second_reported).1 ≡ second_reported
stale_verdict_is_void_example =
    stale_verdict_is_void runtime second_io mail_job (attempt_under 9) (ok tt) 8 9 taken_over
      second_reported second_runs no_claim_by_first first_lease_is_gone

Step-AllLive_example : AllLive tables.deliveries first_claimed.deliveries
Step-AllLive_example =
    Step-AllLive runtime 1 5 tables first_claimed
      (claims worker_io mail_job (attempt_under 9) 1 tables (omega arith))
