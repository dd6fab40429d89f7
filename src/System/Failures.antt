-- ===== src/System/Failures.antt =====
-- What a dispatch that fails can leave in a transaction that is committed all the same.
use rust_events.Base.{
  ◌≡◌, ◌⊎◌, sym, ap, subst, ◌∙◌, true, false, inl, inr, Bool-cases, Option-cases, Result-cases,
  none, some, List, Str, ok, err, is_empty, length, Action, pure, ◌>>◌, ◌>>=◌, arith,
}
use rust_events.Handler.{DomainEvent, Bytes}
use rust_events.Builder.{Outbox}
use rust_events.Util.{SqlxError}
use rust_events.Schema.{Db, Wire}
use rust_events.Dispatch.Context.{DispatchContext}
use rust_events.Dispatch.Errors.{DispatchError, DispatchOutcome, dispatched, pgwq_push}
use rust_events.Dispatch.Transaction.{Pusher, Json, Tx, statement}
use rust_events.Dispatch.Steps.{encode_headers_state, reserve-eq-none}
use rust_events.Dispatch.Rejection.{dispatch_cases, dispatch_accepted, handler_ids}
use rust_events.Dispatch.{
  DispatchIo, encode_headers, reserve, insert_rows, push_jobs, write_event, after_reserve, dispatch,
}
use rust_events.Purge.Statements.{has_id}
use rust_events.System.{KeysRefer}

statement-eq-err :
    {M J A : Type 0} (wire : Wire) (run : Action (Db M) A SqlxError) (tx : Tx M J) {x : SqlxError}
    → (statement wire run tx).0 ≡ err x
    → (statement wire run tx).1.aborted ≡ true
unfolding statement
statement-eq-err wire run tx h = ground (arith, h)

module _ {B M : Type 0} (p : Pusher) (json : Json M) (outbox : Outbox B M) (io : DispatchIo)
    (ctx : DispatchContext M) (e : DomainEvent) (event : e.Event) where
  -- A statement that fails aborts the transaction.
  reserve-eq-err :
      (tx : Tx M p.Jobs) {x : DispatchError p.PushError}
      → (reserve p json outbox io ctx e event tx).0 ≡ err x
      → (reserve p json outbox io ctx e event tx).1.aborted ≡ true
  unfolding reserve statement
  reserve-eq-err tx h = ground (arith, h)

  push_jobs-eq-err :
      (ids : List Str) (t : Tx M p.Jobs) (x : DispatchError p.PushError) (a : DispatchOutcome)
      → ((push_jobs p json outbox io ctx e event ids >> pure a) t).0 ≡ err x
      → (q : p.PushError) × (x ≡ pgwq_push q)
  unfolding push_jobs
  push_jobs-eq-err ids t x a h = ground (arith, h)

  -- Past the reservation, all but the queue's failure leave the reservation's state or abort.
  write_event-eq-err :
      (payload : Bytes) (ids : List Str) (t : Tx M p.Jobs) (x : DispatchError p.PushError)
      → (write_event p json outbox io ctx e event payload ids t).0 ≡ err x
      → let t' = (write_event p json outbox io ctx e event payload ids t).1 in
        (t' ≡ t) ⊎ (t'.aborted ≡ true) ⊎ ((q : p.PushError) × (x ≡ pgwq_push q))
  unfolding write_event
  write_event-eq-err payload ids t x h =
      let same = encode_headers_state p json outbox io ctx e event t in
      elim (Result-cases (encode_headers p json outbox io ctx e event t).0) [
        | inr (y, c) ↦ inl (ground (arith, c, same))
        | inl (text, c) ↦
            let run = insert_rows p json outbox io ctx e event payload text ids in
            elim (Result-cases (statement io.insert_wire run t).0) [
              | inr (y, w) ↦
                  inr (inl (ground (arith, c, same, w, statement-eq-err io.insert_wire run t w)))
              | inl (_, w) ↦ elim (Bool-cases (is_empty ids)) [
                | inl nobody ↦ absurd (ground (arith, c, same, w, nobody, h))
                | inr some_id ↦ inr (
                    inr (
                      push_jobs-eq-err ids (statement io.insert_wire run t).1 x
                        (dispatched io.event_id (length ids))
                        (ground (arith, c, same, w, some_id, h))))
              ]
            ]
      ]

  reserve_without_key :
      (tx : Tx M p.Jobs)
      → ctx.idempotency_key ≡ none
      → (reserve p json outbox io ctx e event tx).1 ≡ tx
  unfolding reserve
  reserve_without_key tx h = ground (arith, h)

  -- A new reservation without its event cannot be committed.
  reserved_not_committed :
      (tx : Tx M p.Jobs)
      → has_id tx.db.events io.event_id ≡ false
      → (reserve p json outbox io ctx e event tx).0 ≡ ok none
      → KeysRefer (reserve p json outbox io ctx e event tx).1.db
      → (reserve p json outbox io ctx e event tx).1 ≡ tx
  reserved_not_committed tx fresh free refer = elim (Option-cases ctx.idempotency_key) [
    | inl none_given ↦ reserve_without_key tx none_given
    | inr (key, given) ↦
        let (_, _, reserved) = reserve-eq-none p json outbox io ctx e event tx key given free in
        absurd (ground (arith, fresh, (subst (λ t. KeysRefer t.db) reserved refer).0))
  ]

  -- From the reservation on.
  writing_fails :
      (payload : Bytes) (ids : List Str) (tx : Tx M p.Jobs) (x : DispatchError p.PushError)
      → let (r, tx') =
          (reserve p json outbox io ctx e event
              >>= after_reserve p json outbox io ctx e event payload ids)
            tx in
        has_id tx.db.events io.event_id ≡ false
        → r ≡ err x
        → tx'.aborted ≡ false
        → KeysRefer tx'.db
        → (tx' ≡ tx) ⊎ ((q : p.PushError) × (x ≡ pgwq_push q))
  unfolding after_reserve
  writing_fails payload ids tx x fresh failed live refer =
      let reserving = reserve p json outbox io ctx e event in
      let goes_on = after_reserve p json outbox io ctx e event payload ids in
      let t = (reserving tx).1 in
      elim (Result-cases (reserving tx).0) [
        | inr (y, r) ↦ absurd (ground (arith, r, live, reserve-eq-err tx r))
        | inl (some held, r) ↦ absurd (ground (arith, r, failed))
        | inl (none, r) ↦
            let runs : (reserving >>= goes_on) tx
                ≡ write_event p json outbox io ctx e event payload ids t =
              ground (arith, r) in
            elim (write_event-eq-err payload ids t x (ap (λ s. s.0) (sym runs) ∙ failed)) [
              | inr (inr pushing) ↦ inr pushing
              | inr (inl aborted) ↦ absurd (ground (arith, runs, aborted, live))
              | inl same ↦
                  let still = ap (λ s. s.1) runs ∙ same in
                  inl (
                    still
                    ∙ reserved_not_committed tx fresh r (subst (λ s. KeysRefer s.db) still refer))
            ]
      ]

  -- The caller has to roll back after an error. If it commits instead, and the server accepts that,
  -- then the failed dispatch has left nothing, with one exception: the queue failed to take the jobs
  -- without a failed statement. (The event's id is new.)
  pub failed_dispatch_leaves_nothing :
      (tx : Tx M p.Jobs) (x : DispatchError p.PushError)
      → has_id tx.db.events io.event_id ≡ false
      → (dispatch p json outbox io ctx e event tx).0 ≡ err x
      → (dispatch p json outbox io ctx e event tx).1.aborted ≡ false
      → KeysRefer (dispatch p json outbox io ctx e event tx).1.db
      → ((dispatch p json outbox io ctx e event tx).1 ≡ tx)
        ⊎ ((q : p.PushError) × (x ≡ pgwq_push q))
  failed_dispatch_leaves_nothing tx x fresh failed live refer =
      elim (dispatch_cases p json outbox io ctx e event tx) [
        | inl (y, refused) ↦ inl (ap (λ s. s.1) refused)
        | inr (payload, encodes, within, handlers) ↦
            let accepted =
              dispatch_accepted p json outbox io ctx e event tx payload within encodes handlers in
            let ids = handler_ids p json outbox io ctx e event tx in
            let state = ap (λ s. s.1) accepted in
            elim (writing_fails payload ids tx x fresh (ap (λ s. s.0) (sym accepted) ∙ failed)
              (ap (λ s. s.aborted) (sym state) ∙ live) (subst (λ s. KeysRefer s.db) state refer)) [
                | inl same ↦ inl (state ∙ same)
                | inr pushing ↦ inr pushing
              ]
      ]
