-- ===== src/Examples/Race.antt =====
-- Two transactions dispatch order 2 under one key, and a third another order.
use rust_events.Base.{ℕ, ◌≡◌, ◌==◌, refl, false, true, none, [], ◌∷◌, str, ok, any, arith}
use rust_events.Schema.{dispatch_keys_check}
use rust_events.Registry.{handler_ids_for}
use rust_events.Dispatch.Errors.{duplicate}
use rust_events.Dispatch.Rejection.{HasHandlers}
use rust_events.Dispatch.{dispatch}
use rust_events.Dispatch.Transaction.{Tx, reserve_key, has_nul}
use rust_events.System.Races.{
  Shared, own_rows, visible, is_locked_by_others, upsert, commit, roll_back, RaceRuns, upserts,
  commits_other, nothing_more, one_more,
}
use rust_events.System.Locks.{key_row}
use rust_events.System.Rivals.{race_has_one_winner}
use rust_events.System.Serial.{race_is_serial}
use rust_events.Examples.{order_created, shop, pusher, json, dispatch_io, order_ctx, transaction}
use rust_events.Examples.Producer.{first_dispatch_went}

abbrev nobody : Shared ℕ
nobody = record { db = transaction.db; held = [] }

-- Transaction 1 has the key.
abbrev first_in : Shared ℕ
first_in = (upsert 1 1 (str "acme") (str "order:2") 7 nobody).1

first_is_answered : (upsert 1 1 (str "acme") (str "order:2") 7 nobody).0 ≡ ok (7, true)
unfolding reserve_key has_nul dispatch_keys_check
first_is_answered = refl

-- Transaction 2 dispatches another order and commits, while a third waits for transaction 1.
abbrev second_in : Shared ℕ
second_in = (upsert 2 2 (str "acme") (str "order:3") 8 first_in).1

other_key_is_open : is_locked_by_others 2 (str "acme") (str "order:3") first_in ≡ false
unfolding reserve_key has_nul dispatch_keys_check
other_key_is_open = refl

third_waits : is_locked_by_others 3 (str "acme") (str "order:2") (commit 2 second_in) ≡ true
unfolding reserve_key has_nul dispatch_keys_check
third_waits = refl

second_commits : RaceRuns 1 first_in (commit 2 second_in)
second_commits =
    one_more first_in second_in (commit 2 second_in)
      (upserts 2 2 8 (str "acme") (str "order:3") first_in other_key_is_open)
      (one_more second_in (commit 2 second_in) (commit 2 second_in) (commits_other 2 second_in refl)
        (nothing_more (commit 2 second_in)))

-- Transaction 3, once transaction 1 has committed.
abbrev third : Tx ℕ pusher.Jobs
third = record { db = visible 3 (commit 1 (commit 2 second_in)); jobs = []; aborted = false }

third_has_handlers : HasHandlers pusher json shop (dispatch_io 9) order_ctx order_created 3 third
unfolding handler_ids_for
third_has_handlers = refl

race_has_one_winner_example :
    ((is_locked_by_others 3 (str "acme") (str "order:2") (commit 1 (commit 2 second_in)) ≡ false)
      × (dispatch pusher json shop (dispatch_io 9) order_ctx order_created 3 third
          ≡ (ok (duplicate 7), third)))
    × ((is_locked_by_others 3 (str "acme") (str "order:2") (roll_back 1 (commit 2 second_in))
          ≡ false)
        × (key_row
              (str "acme")
              (str "order:2")
              (visible 3 (roll_back 1 (commit 2 second_in))).dispatch_keys
            ≡ none))
race_has_one_winner_example =
    race_has_one_winner pusher json shop (dispatch_io 7) (dispatch_io 9) order_ctx order_ctx
      order_created order_created 2 3 transaction third (str "order:2") (3 ∷ []) 7 1 1 3 nobody
      (commit 2 second_in) refl refl refl first_dispatch_went second_commits refl refl refl
      (omega arith, omega arith, omega arith, omega arith, (omega arith, omega arith), tt)
      (refl, omega arith) third_has_handlers refl refl

idle_reservations :
    (own_rows 1 (commit 2 second_in).held ≡ own_rows 1 first_in.held)
    × (any (λ k. k.event_id == 7) (commit 2 second_in).db.dispatch_keys ≡ false)
unfolding reserve_key has_nul dispatch_keys_check
idle_reservations = (refl, refl)

race_is_serial_example :
    reserve_key 1 (str "acme") (str "order:2") 7 (commit 2 second_in).db
    ≡ (ok (7, true), (commit 1 (commit 2 second_in)).db)
race_is_serial_example =
    race_is_serial (str "acme") (str "order:2") 1 1 7 7 true nobody (commit 2 second_in) refl refl
      first_is_answered second_commits idle_reservations.0 idle_reservations.1
