-- ===== src/Examples/Worker.antt =====
-- The worker's theorems at the order's mail.
use rust_events.Base.{
  ℕ, ◌≡◌, first, select_where, ◌≤◌, ◌++◌, len, length, refl, Bool, true, false, none, some, [], ◌∷◌,
  Str, str, ok, err, arith,
}
use rust_events.Handler.{abort_error}
use rust_events.Registry.{find_handler}
use rust_events.Schema.{
  Db, Delivery, reply, lost_after, is_delivery, deliveries_check, check_violation,
}
use rust_events.Schema.Status.{sent}
use rust_events.Util.Sanitize.{IsClean}
use rust_events.Util.Truncate.{truncate_utf8_longest}
use rust_events.Dispatch.Errors.{from_sqlx, is_retriable}
use rust_events.Runtime.Jobs.{abort_job, map_sql}
use rust_events.Runtime.Marks.{stored_reason}
use rust_events.Runtime.Reasons.{stored_reason_safe}
use rust_events.Runtime.Redaction.{
  quiet_io, is_retry, classifications_agree, handle_envelope-without_text,
}
use rust_events.Schema.Valid.{AreValid}
use rust_events.Util.{io, is_pg_constraint_violation, truncate_utf8}
use rust_events.Runtime.Claim.{claim_delivery, claimed_row}
use rust_events.Runtime.Verdict.{answer}
use rust_events.Runtime.Outcome.{
  Answers, settled, handle_envelope_settles, handle_envelope-terminal, handle_envelope-unregistered,
}
use rust_events.Runtime.Attempts.{asks_again}
use rust_events.Runtime.Fates.{
  fate, status_after, is_again, is_arrival, is_success, delivery_has_its_fate,
}
use rust_events.Runtime.Fencing.{settle_after_takeover}
use rust_events.Runtime.{WorkerIo, OutboxRuntime, settle, invoke, handle_envelope}
use rust_events.Examples.{
  runtime, order_row, mail_delivery, mail_handler, tables, mail_job, attempt_under, worker_io,
}

pub tables-AreValid : AreValid 5 tables.deliveries
unfolding deliveries_check
tables-AreValid = (
  record {
    checked = refl;
    created_by = omega arith;
    updated_by = omega arith;
    first_by = tt;
    last_by = tt;
  },
  tt,
)

pub worker_io-Answers : Answers worker_io
worker_io-Answers = record { claim_answered = refl; mark_answered = refl; in_order = omega arith }

pub mail_handler_found : find_handler runtime.registry (str "mail") ≡ some mail_handler
unfolding find_handler
mail_handler_found = refl

handle_envelope_settles_example :
    handle_envelope worker_io mail_job (attempt_under 9) runtime tables ≡ (
      answer (
          invoke worker_io mail_job
            (attempt_under 9)
            runtime
            mail_handler
            (claimed_row 7 (str "mail") tables order_row)),
      settled worker_io mail_job
          (attempt_under 9)
          runtime
          tables
          worker_io-Answers
          tables-AreValid
          (invoke worker_io mail_job
            (attempt_under 9)
            runtime
            mail_handler
            (claimed_row 7 (str "mail") tables order_row)),
    )
handle_envelope_settles_example =
    handle_envelope_settles worker_io mail_job (attempt_under 9) runtime tables worker_io-Answers
      tables-AreValid order_row mail_delivery (refl, tt) refl refl mail_handler refl
      mail_handler_found

settle_after_takeover_example :
    let taken = (claim_delivery 5 7 (str "mail") 1 10 tables).1 in
    (settle worker_io mail_job (attempt_under 9) (ok tt) taken).1 ≡ taken
settle_after_takeover_example =
    settle_after_takeover worker_io mail_job (attempt_under 9) (ok tt) 5 1 10 tables tables-AreValid
      (omega arith)

-- The server loses the answer to the mark.
abbrev lossy_io : WorkerIo
lossy_io = record {
  claim_wire = reply;
  claim_time = 5;
  mark_wire = lost_after (io (str "connection reset by 10.0.0.7"));
  mark_time = 6;
}

abbrev sent_delivery : Delivery
sent_delivery = record mail_delivery {
  status = sent;
  attempts = 1;
  first_attempted_at = some 2;
  last_attempted_at = some 2;
  finished_at = some 3;
  updated_at = 3;
}

abbrev sent_tables : Db ℕ
sent_tables = record tables { deliveries = sent_delivery ∷ [] }

sent_tables-AreValid : AreValid 5 sent_tables.deliveries
unfolding deliveries_check
sent_tables-AreValid = (
  record {
    checked = refl;
    created_by = omega arith;
    updated_by = omega arith;
    first_by = omega arith;
    last_by = omega arith;
  },
  tt,
)

handle_envelope-terminal_example :
    handle_envelope worker_io mail_job (attempt_under 9) runtime sent_tables ≡ (ok tt, sent_tables)
handle_envelope-terminal_example =
    handle_envelope-terminal worker_io mail_job (attempt_under 9) runtime sent_tables
      worker_io-Answers sent_tables-AreValid order_row sent_delivery (refl, tt) refl refl refl

-- After a deployment without the mailer.
abbrev bare_runtime : OutboxRuntime (Unit {0}) ℕ
bare_runtime = record runtime { registry = record { handlers = []; by_type = [] } }

no_mail_handler : find_handler bare_runtime.registry (str "mail") ≡ none
unfolding find_handler
no_mail_handler = refl

handle_envelope-unregistered_example :
    handle_envelope worker_io mail_job (attempt_under 9) bare_runtime tables ≡ (
      err (abort_job (str "handler not registered")),
      settled worker_io mail_job
          (attempt_under 9)
          bare_runtime
          tables
          worker_io-Answers
          tables-AreValid
          (err (abort_error (str "handler not registered"))),
    )
handle_envelope-unregistered_example =
    handle_envelope-unregistered worker_io mail_job (attempt_under 9) bare_runtime tables
      worker_io-Answers tables-AreValid order_row mail_delivery (refl, tt) refl refl refl
      no_mail_handler

handle_envelope-without_text_example :
    handle_envelope (quiet_io lossy_io) mail_job (attempt_under 9) runtime tables
    ≡ handle_envelope lossy_io mail_job (attempt_under 9) runtime tables
handle_envelope-without_text_example =
    handle_envelope-without_text lossy_io mail_job (attempt_under 9) runtime tables

pusher_retries : Unit {0} → Bool
pusher_retries _ = true

classifications_agree_example :
    (is_retry (map_sql check_violation (str "mark_sent"))
      ≡ is_retriable pusher_retries (from_sqlx check_violation))
    × (is_pg_constraint_violation check_violation ≡ true
        → is_retry (map_sql check_violation (str "mark_sent")) ≡ false)
classifications_agree_example =
    classifications_agree pusher_retries check_violation (str "mark_sent")

-- A line feed is masked.
stored_reason_safe_example :
    IsClean (stored_reason (10 ∷ 120 ∷ [])) × (len (stored_reason (10 ∷ 120 ∷ [])) ≤ 8192)
stored_reason_safe_example = stored_reason_safe (10 ∷ 120 ∷ [])

-- The letter e with an acute accent does not fit any more.
truncate_utf8_longest_example :
    (len (truncate_utf8 (97 ∷ 233 ∷ []) 2) ≤ 2)
    × ((rest : Str) × ((97 ∷ 233 ∷ []) ≡ truncate_utf8 (97 ∷ 233 ∷ []) 2 ++ rest))
    × (1 ≤ length (truncate_utf8 (97 ∷ 233 ∷ []) 2))
truncate_utf8_longest_example =
    truncate_utf8_longest (97 ∷ 233 ∷ []) 2 (97 ∷ []) (233 ∷ []) refl (omega arith)

-- The mail of order 2 is to be tried again.
delivery_has_its_fate_example :
    let (r, db') = handle_envelope worker_io mail_job (attempt_under 9) runtime tables in
    let its_fate =
      fate worker_io mail_job (attempt_under 9) runtime tables order_row mail_handler in
    ((d' : Delivery) × (first (select_where (is_delivery 7 (str "mail")) db'.deliveries) ≡ some d')
      × (d'.status ≡ status_after false its_fate))
    × (asks_again r ≡ is_again its_fate)
    × (is_success r ≡ is_arrival its_fate)
delivery_has_its_fate_example =
    delivery_has_its_fate worker_io mail_job (attempt_under 9) runtime tables order_row mail_handler
      worker_io-Answers tables-AreValid mail_delivery (refl, tt) refl refl refl mail_handler_found
