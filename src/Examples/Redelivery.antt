-- ===== src/Examples/Redelivery.antt =====
-- The mail of order 2 never goes out. Its job is run time and again; the first verdict's answer is
-- lost on the way.
use rust_events.Base.{ℕ, suc, zero, ◌+◌, ◌≡◌, refl, not, ◌&&◌, ◌||◌, str, any, leb}
use rust_events.Util.{io}
use rust_events.Schema.{Db, Wire, reply, lost_after, is_delivery}
use rust_events.Schema.Status.{is_terminal}
use rust_events.Runtime.Jobs.{JobContext}
use rust_events.Runtime.Attempts.{asks_again, queue_and_table_agree}
use rust_events.Runtime.{WorkerIo, handle_envelope}
use rust_events.System.Outlook.{FollowsOutlook, system_refines_outlook}
use rust_events.System.Job.{Attempts, Crash, no_crash, before_the_mark, attempt_leaves}
use rust_events.Examples.{
  runtime, order_row, mail_delivery, tables, mail_job, attempt_under, worker_io, pusher, json, shop,
}
use rust_events.Examples.Worker.{tables-AreValid, worker_io-Answers}
use rust_events.Examples.Whole.{ordered, ordered-IsWellFormed, purged, mail-SystemRuns}

-- The third of three attempts.
abbrev last_attempt : JobContext
last_attempt = record (attempt_under 9) { attempt = 3 }

queue_and_table_agree_example :
    let (r, db') = handle_envelope worker_io mail_job last_attempt runtime tables in
    any (λ x. is_delivery 7 (str "mail") x && is_terminal x.status) db'.deliveries
    ≡ (not (asks_again r) || leb 3 3)
queue_and_table_agree_example =
    queue_and_table_agree worker_io mail_job last_attempt runtime tables worker_io-Answers
      tables-AreValid order_row mail_delivery (refl, tt) refl refl

abbrev attempt_number : ℕ → JobContext
attempt_number k = record {
  attempt = suc k;
  max_attempts = 3;
  lease_token = 20 + k;
  idempotency_key = 70;
}

abbrev mark_wire_of : ℕ → Wire
mark_wire_of zero = lost_after (io (str "connection reset"))
mark_wire_of (suc k) = reply

abbrev io_of : ℕ → WorkerIo
io_of k = record {
  claim_wire = reply;
  claim_time = 5 + k;
  mark_wire = mark_wire_of k;
  mark_time = 5 + k;
}

-- The second worker stops while the handler runs.
abbrev crash_of : ℕ → Crash
crash_of zero = no_crash
crash_of (suc zero) = before_the_mark
crash_of (suc (suc k)) = no_crash

abbrev before_attempt : ℕ → Db ℕ
before_attempt zero = ordered
before_attempt (suc k) =
    attempt_leaves runtime mail_job (crash_of k) (io_of k) (attempt_number k) (before_attempt k)

abbrev start_of : ℕ → ℕ
start_of zero = 1
start_of (suc k) = 5 + k

system_refines_outlook_example : FollowsOutlook pusher json shop runtime mail-SystemRuns
system_refines_outlook_example =
    system_refines_outlook pusher json shop runtime 1 6 ordered purged mail-SystemRuns
      ordered-IsWellFormed
