-- ===== src/Examples/Whole.antt =====
-- The shop from empty tables on: order 2 is dispatched and its mail tried once, and a purge finds
-- nothing to delete.
use rust_events.Base.{
  some, first, select_where, Str, ℕ, ◌≡◌, ◌⊎◌, refl, false, none, [], ◌∷◌, str, err, ok, length,
  is_empty, true, subst, any, str_eq, update_where, arith,
}
use rust_events.Util.{database}
use rust_events.Handler.{Bytes, HandlerContext, retry}
use rust_events.Registry.{handler_ids_for}
use rust_events.Schema.{
  DispatchKey, Db, lost_after, over, events_check, dispatch_keys_check, deliveries_check,
}
use rust_events.Dispatch.Errors.{dispatched, duplicate}
use rust_events.Dispatch.Transaction.{
  is_key, has_nul, Tx, statement, reserve_key, insert_event, insert_deliveries,
  insert_event_and_deliveries,
}
use rust_events.Dispatch.{
  check_key, validate, encode_payload, reserve, encode_headers, insert_rows, push_jobs, write_event,
  after_reserve, dispatch,
}
use rust_events.Purge.Statements.{delete_events, has_id}
use rust_events.System.Duplicates.{duplicate_names_event}
use rust_events.Runtime.{claim, settle, handle_envelope}
use rust_events.Runtime.Traces.{claims, settles}
use rust_events.System.Sound.{IsWellFormed}
use rust_events.System.Reachable.{system-IsWellFormed}
use rust_events.System.Losses.{IsPending, IsSettled, AtSome, no_delivery_lost}
use rust_events.System.Succeeds.{dispatch_succeeds}
use rust_events.System.{
  KeysRefer, SystemRuns, commits, works, purges_events, begun, dispatches, rests, steps,
}
use rust_events.Examples.{
  order_created, shop_config, shop_builder, shop, runtime, mail_job, attempt_under, worker_io,
  mail_handler, send_mail, pusher, json, dispatch_io, order_ctx, transaction,
}
use rust_events.Examples.Producer.{first_dispatch, first_dispatch_went}
use rust_events.Examples.Worker.{worker_io-Answers, mail_handler_found}
use rust_events.System.Delivered.{result_of_run, dispatched_reaches_handler}
use rust_events.Runtime.Claim.{is_claimable, set_running, clamp_i32}
use rust_events.Runtime.Verdict.{finish, answer}
use rust_events.Examples.Setup.{shop_built}

abbrev pub ordered : Db ℕ
ordered = first_dispatch.1.db

abbrev claimed : Db ℕ
claimed = (claim worker_io mail_job (attempt_under 9) ordered).1

abbrev tried : Db ℕ
tried = (settle worker_io mail_job (attempt_under 9) (err (retry (str "smtp down"))) claimed).1

abbrev pub purged : Db ℕ
purged = (over (lost_after (database none (str "closed"))) (delete_events 3) tried).1

empty-IsWellFormed : IsWellFormed 0 transaction.db
empty-IsWellFormed = record {
  sound = record {
    deliveries = record {
      valid = tt;
      ids_below = tt;
      ids_distinct = tt;
      rows_distinct = tt;
      referring = tt;
    };
    events_distinct = tt;
    keys_distinct = tt;
    key_events_distinct = tt;
  };
  keys_referring = tt;
}

order_can_commit : (first_dispatch.1.aborted ≡ false) × KeysRefer ordered
unfolding dispatch validate check_key encode_payload handler_ids_for reserve reserve_key has_nul
    statement over after_reserve write_event encode_headers insert_rows push_jobs
    insert_event_and_deliveries insert_event insert_deliveries events_check dispatch_keys_check
    deliveries_check
order_can_commit = (refl, (refl, tt))

pub mail-IsPending : IsPending 7 (str "mail") ordered
unfolding dispatch validate check_key encode_payload handler_ids_for reserve reserve_key has_nul
    statement over after_reserve write_event encode_headers insert_rows push_jobs
    insert_event_and_deliveries insert_event insert_deliveries events_check dispatch_keys_check
    deliveries_check
mail-IsPending = refl

order-SystemRuns : SystemRuns pusher json shop runtime 0 transaction.db 1 ordered
order-SystemRuns =
    steps 0 1 1 transaction.db ordered ordered
      (commits 0 1 1 transaction first_dispatch.1
        (dispatches (dispatch_io 7) order_ctx order_created 2 transaction transaction
          (begun 1 transaction))
        (omega arith) (omega arith) order_can_commit.0 order_can_commit.1)
      (rests 1 ordered)

pub mail-SystemRuns : SystemRuns pusher json shop runtime 1 ordered 6 purged
mail-SystemRuns =
    steps 1 5 6 ordered claimed purged
      (works 1 5 ordered claimed
        (claims worker_io mail_job (attempt_under 9) 1 ordered (omega arith)))
      (steps 5 6 6 claimed tried purged
        (works 5 6 claimed tried (
          settles worker_io mail_job (attempt_under 9) (err (retry (str "smtp down"))) 5 claimed
            (omega arith)))
        (steps 6 6 6 tried purged purged
          (purges_events 6 3 (lost_after (database none (str "closed"))) tried) (rests 6 purged)))

system-IsWellFormed_example : IsWellFormed 1 ordered
system-IsWellFormed_example =
    system-IsWellFormed pusher json shop runtime 0 1 transaction.db ordered order-SystemRuns
      empty-IsWellFormed

pub ordered-IsWellFormed : IsWellFormed 1 ordered
ordered-IsWellFormed =
    system-IsWellFormed pusher json shop runtime 0 1 transaction.db ordered order-SystemRuns
      empty-IsWellFormed

no_delivery_lost_example :
    IsPending 7 (str "mail") purged
    ⊎ AtSome pusher json shop runtime (IsSettled 7 (str "mail")) mail-SystemRuns
no_delivery_lost_example =
    no_delivery_lost pusher json shop runtime 7 (str "mail") 1 6 ordered purged mail-SystemRuns
      ordered-IsWellFormed mail-IsPending

mail_is_registered : is_empty (handler_ids_for shop.registry order_created.event_type) ≡ false
unfolding handler_ids_for
mail_is_registered = refl

texts_are_clean :
    (has_nul (order_created.event_type ∷ order_ctx.producer_bc ∷ order_ctx.tenant_id ∷ []) ≡ false)
    × (has_nul (order_ctx.tenant_id ∷ str "order:2" ∷ []) ≡ false)
    × (has_nul (handler_ids_for shop.registry order_created.event_type) ≡ false)
unfolding has_nul handler_ids_for
texts_are_clean = (refl, refl, refl)

dispatch_succeeds_example :
    (tx' : Tx ℕ pusher.Jobs) × (dispatch pusher json shop
        (dispatch_io 7)
        order_ctx
        order_created
        2
        transaction
      ≡ (ok (dispatched 7 (length (handler_ids_for shop.registry order_created.event_type))), tx'))
    × (tx'.aborted ≡ false)
    × KeysRefer tx'.db
dispatch_succeeds_example =
    dispatch_succeeds pusher json shop (dispatch_io 7) order_ctx order_created 2 shop_config
      shop_builder 0 transaction (2 ∷ []) (str "{}") 0 shop_built empty-IsWellFormed refl refl refl
      refl (omega arith, omega arith, omega arith, omega arith, (omega arith, omega arith), tt)
      (refl, omega arith) mail_is_registered texts_are_clean.0 texts_are_clean.1 texts_are_clean.2
      refl refl (omega arith) refl (omega arith) refl

order_is_read_back : (b : Bytes) → order_created.to_vec 2 ≡ ok b → order_created.from_slice b ≡ ok 2
order_is_read_back b h =
    let same : 2 ∷ [] ≡ b = cc h in subst (λ xs. order_created.from_slice xs ≡ ok 2) same refl

mail_is_for_order :
    any (str_eq (str "mail")) (handler_ids_for shop.registry order_created.event_type) ≡ true
unfolding handler_ids_for
mail_is_for_order = refl

dispatched_reaches_handler_example :
    (hc : HandlerContext ℕ) × (hc.event_id ≡ 7)
    × (hc.tenant_id ≡ order_ctx.tenant_id)
    × (hc.producer_bc ≡ order_ctx.producer_bc)
    × (hc.attempt ≡ 1)
    × (hc.dispatch_idempotency_key ≡ order_ctx.idempotency_key)
    × (let result =
          result_of_run pusher json shop
            (dispatch_io 7)
            order_ctx
            order_created
            2
            transaction
            runtime
            mail_handler
            send_mail
            hc in
        handle_envelope worker_io mail_job (attempt_under 9) runtime ordered ≡ (
          answer result,
          record ordered {
            deliveries =
                update_where
                  (is_claimable 7 (str "mail"))
                  (λ d. finish (attempt_under 9) 6 result (set_running 5 (clamp_i32 1) 9 d))
                  ordered.deliveries;
          },
        ))
dispatched_reaches_handler_example =
    dispatched_reaches_handler pusher json shop (dispatch_io 7) order_ctx order_created 2
      transaction 0 7 1 (str "mail") runtime worker_io (attempt_under 9) send_mail mail_handler
      empty-IsWellFormed (omega arith) (omega arith) first_dispatch_went mail_is_for_order
      mail_handler_found refl order_is_read_back worker_io-Answers

second_dispatch_is_duplicate :
    (dispatch pusher json shop (dispatch_io 8) order_ctx order_created 3 first_dispatch.1).0
    ≡ ok (duplicate 7)
unfolding dispatch validate check_key encode_payload handler_ids_for reserve reserve_key has_nul
    statement over after_reserve write_event encode_headers insert_rows push_jobs
    insert_event_and_deliveries insert_event insert_deliveries events_check dispatch_keys_check
    deliveries_check
second_dispatch_is_duplicate = refl

duplicate_names_event_example :
    (dispatch pusher json shop (dispatch_io 8) order_ctx order_created 3 first_dispatch.1
      ≡ (ok (duplicate 7), first_dispatch.1))
    × (has_id ordered.events 7 ≡ true)
    × ((key : Str) × (k : DispatchKey) × (order_ctx.idempotency_key ≡ some key)
        × (first (select_where (is_key order_ctx.tenant_id key) ordered.dispatch_keys) ≡ some k)
        × (k.event_id ≡ 7))
duplicate_names_event_example =
    duplicate_names_event pusher json shop (dispatch_io 8) order_ctx order_created 3
      first_dispatch.1 7 order_can_commit.1 second_dispatch_is_duplicate
