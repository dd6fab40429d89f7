-- ===== src/System/Dispatches.antt =====
-- A dispatch keeps the tables sound, whether it succeeds or fails, and so does a transaction.
use rust_events.Base.{
  ℕ, ◌≤◌, ◌≡◌, ◌⊎◌, subst, if◌then◌else◌, refl, sym, not, ◌&&◌, Option, none, some, inl, inr,
  Bool-cases, Option-cases, Result-cases, List, Str, Action, is_empty, pure, catch, raise_if, ◌>>=◌,
  ◌>>◌, length, Keeps, >>=-Keeps, raise_if-Keeps, arith,
}
use rust_events.Util.{SqlxError}
use rust_events.Handler.{DomainEvent, Bytes}
use rust_events.Registry.{handler_ids_for}
use rust_events.Builder.{Outbox}
use rust_events.Schema.{Db, EventRow, Wire, over}
use rust_events.Dispatch.Context.{DispatchContext}
use rust_events.Dispatch.Errors.{
  no_handlers_registered, DispatchError, DispatchOutcome, no_handlers, dispatched, from_sqlx,
}
use rust_events.Dispatch.Transaction.{
  Pusher, Json, Tx, statement, reserve_key, insert_event, insert_event_and_deliveries,
}
use rust_events.Dispatch.Steps.{validate_state, encode_payload_state, encode_headers_state}
use rust_events.Dispatch.{
  DispatchIo, event_row, validate, encode_payload, encode_headers, reserve, insert_rows, push_jobs,
  write_event, after_reserve, dispatch,
}
use rust_events.Runtime.Statements.{over_cases}
use rust_events.System.Sound.{IsSound}
use rust_events.System.Inserts.{insert_event-Keeps, insert_event_and_deliveries-Keeps}
use rust_events.System.Reserves.{reserve_key-Keeps}
use rust_events.System.{Transacts, begun, dispatches}

module _ {M J : Type 0} (Q : Db M → Type 0) where
  abbrev InTx : Tx M J → Type 0
  InTx tx = Q tx.db

  statement_db :
      {A : Type 0} (wire : Wire) (run : Action (Db M) A SqlxError) (tx : Tx M J)
      → ((statement wire run tx).1.db ≡ tx.db)
        ⊎ ((statement wire run tx).1.db ≡ (over wire run tx.db).1)
  unfolding statement
  statement_db wire run tx = ground arith

  statement-Keeps :
      {A : Type 0} (wire : Wire) (run : Action (Db M) A SqlxError)
      → Keeps Q run
      → Keeps InTx (statement wire run)
  statement-Keeps wire run keep tx s = elim (statement_db wire run tx) [
    | inl stays ↦ subst Q (sym stays) s
    | inr runs ↦ subst Q (sym runs) (over_cases Q wire run tx.db s (keep tx.db s))
  ]

module _ {B M : Type 0} (p : Pusher) (json : Json M) (outbox : Outbox B M) (io : DispatchIo)
    (ctx : DispatchContext M) (e : DomainEvent) (event : e.Event) (Q : Db M → Type 0)
    (on_key : (tenant key : Str) (event_id : ℕ) → Keeps Q (reserve_key io.now tenant key event_id))
    (on_event : (row : EventRow M) → Keeps Q (insert_event json.octets row))
    (on_rows : (row : EventRow M) (ids : List Str)
      → row.created_at ≡ io.now
      → Keeps Q (insert_event_and_deliveries json.octets row ids)) where
  insert_rows-Keeps :
      (payload : Bytes) (text : Str) (ids : List Str)
      → Keeps Q (insert_rows p json outbox io ctx e event payload text ids)
  unfolding insert_rows
  insert_rows-Keeps payload text ids db s =
      let run = insert_rows p json outbox io ctx e event payload text ids db in
      elim (Result-cases (json.jsonb_in text)) [
        | inr (x, j) ↦ let same : run.1 ≡ db = ground (arith, j) in subst Q (sym same) s
        | inl (headers, j) ↦
            let row = event_row p json outbox io ctx e event payload headers in
            elim (Bool-cases (is_empty ids)) [
              | inl nobody ↦
                  let same : run.1 ≡ (insert_event json.octets row db).1 =
                    ground (arith, j, nobody) in
                  subst Q (sym same) (on_event row db s)
              | inr some_id ↦
                  let same : run.1 ≡ (insert_event_and_deliveries json.octets row ids db).1 =
                    ground (arith, j, some_id) in
                  subst Q (sym same) (on_rows row ids refl db s)
            ]
      ]

  reserve-Keeps : Keeps (InTx Q) (reserve p json outbox io ctx e event)
  unfolding reserve
  reserve-Keeps tx s =
      let run = reserve p json outbox io ctx e event tx in
      elim (Option-cases ctx.idempotency_key) [
        | inl none_given ↦
            let same : run.1 ≡ tx = ground (arith, none_given) in subst (InTx Q) (sym same) s
        | inr (key, k) ↦
            let reserving = reserve_key io.now ctx.tenant_id key io.event_id in
            let same : run.1 ≡ (statement io.reserve_wire reserving tx).1 = ground (arith, k) in
            subst (InTx Q) (sym same) (
              statement-Keeps Q io.reserve_wire reserving (on_key ctx.tenant_id key io.event_id) tx
                s)
      ]

  push_jobs-Keeps : (ids : List Str) → Keeps (InTx Q) (push_jobs p json outbox io ctx e event ids)
  unfolding push_jobs
  push_jobs-Keeps ids tx s = s

  abbrev Dispatching : Type 0 → Type 0
  Dispatching A = Action (Tx M p.Jobs) A (DispatchError p.PushError)

  abbrev inserting : Bytes → List Str → Str → Dispatching (Unit {0})
  inserting payload ids text =
      catch from_sqlx
        (statement io.insert_wire (insert_rows p json outbox io ctx e event payload text ids))

  abbrev pushing : List Str → Dispatching DispatchOutcome
  pushing ids =
      if is_empty ids
      then pure (no_handlers io.event_id)
      else (push_jobs p json outbox io ctx e event ids
          >> pure (dispatched io.event_id (length ids)))

  pushing-Keeps : (ids : List Str) → Keeps (InTx Q) (pushing ids)
  pushing-Keeps ids tx s = elim (Bool-cases (is_empty ids)) [
    | inl nobody ↦ rw nobody s
    | inr some_id ↦ rw some_id (
        >>=-Keeps (InTx Q) (push_jobs p json outbox io ctx e event ids)
          (λ _. pure (dispatched io.event_id (length ids))) (push_jobs-Keeps ids) (λ _ t k. k) tx s)
  ]

  write_event-Keeps :
      (payload : Bytes) (ids : List Str)
      → Keeps (InTx Q) (write_event p json outbox io ctx e event payload ids)
  unfolding write_event
  write_event-Keeps payload ids =
      let I = InTx Q in
      >>=-Keeps I (encode_headers p json outbox io ctx e event)
        (λ text. inserting payload ids text >> pushing ids)
        (λ tx s. subst I (sym (encode_headers_state p json outbox io ctx e event tx)) s)
        λ text.
          >>=-Keeps I (inserting payload ids text) (λ _. pushing ids)
            (statement-Keeps Q io.insert_wire
              (insert_rows p json outbox io ctx e event payload text ids)
              (insert_rows-Keeps payload text ids))
            (λ _. pushing-Keeps ids)

  after_reserve-Keeps :
      (payload : Bytes) (ids : List Str) (existing : Option ℕ)
      → Keeps (InTx Q) (after_reserve p json outbox io ctx e event payload ids existing)
  unfolding after_reserve
  after_reserve-Keeps payload ids none = write_event-Keeps payload ids
  after_reserve-Keeps payload ids (some id) = λ tx s. s

  abbrev reserving : Bytes → List Str → Dispatching DispatchOutcome
  reserving payload ids =
      reserve p json outbox io ctx e event
      >>= after_reserve p json outbox io ctx e event payload ids

  abbrev routing : Bytes → Dispatching DispatchOutcome
  routing payload =
      let ids = handler_ids_for outbox.registry e.event_type in
      raise_if (is_empty ids && not outbox.allow_no_handlers) (no_handlers_registered e.event_type)
      >> reserving payload ids

  routing-Keeps : (payload : Bytes) → Keeps (InTx Q) (routing payload)
  routing-Keeps payload =
      let I = InTx Q in
      let ids = handler_ids_for outbox.registry e.event_type in
      >>=-Keeps I
        (raise_if (is_empty ids && not outbox.allow_no_handlers)
          (no_handlers_registered e.event_type))
        (λ _. reserving payload ids)
        (raise_if-Keeps I (is_empty ids && not outbox.allow_no_handlers)
          (no_handlers_registered e.event_type))
        λ _.
          >>=-Keeps I (reserve p json outbox io ctx e event)
            (after_reserve p json outbox io ctx e event payload ids) reserve-Keeps
            (after_reserve-Keeps payload ids)

  -- What the three statements keep, the dispatch keeps.
  pub dispatch-Keeps : Keeps (InTx Q) (dispatch p json outbox io ctx e event)
  unfolding dispatch
  dispatch-Keeps =
      let I = InTx Q in
      >>=-Keeps I (validate p json outbox io ctx e event)
        (λ _. encode_payload p json outbox io ctx e event >>= routing)
        (λ tx s. subst I (sym (validate_state p json outbox io ctx e event tx)) s)
        λ _.
          >>=-Keeps I (encode_payload p json outbox io ctx e event) routing
            (λ tx s. subst I (sym (encode_payload_state p json outbox io ctx e event tx)) s)
            routing-Keeps

module _ {B M : Type 0} (p : Pusher) (json : Json M) (outbox : Outbox B M) where
  pub Transacts_keep :
      (Q : Db M → Type 0) (now : ℕ)
      → ((tenant key : Str) (event_id : ℕ) → Keeps Q (reserve_key now tenant key event_id))
      → ((row : EventRow M) → Keeps Q (insert_event json.octets row))
      → ((row : EventRow M) (ids : List Str)
          → row.created_at ≡ now
          → Keeps Q (insert_event_and_deliveries json.octets row ids))
      → (tx tx' : Tx M p.Jobs) → Transacts p json outbox now tx tx'
      → Q tx.db
      → Q tx'.db
  Transacts_keep Q now on_key on_event on_rows tx tx' (begun _ _) s = s
  Transacts_keep Q now on_key on_event on_rows tx tx' (dispatches io ctx e event _ mid before) s =
      dispatch-Keeps p json outbox io ctx e event Q on_key on_event on_rows mid
        (Transacts_keep Q io.now on_key on_event on_rows tx mid before s)

  pub Transacts-IsSound :
      (now u : ℕ) (tx tx' : Tx M p.Jobs)
      → now ≤ u
      → Transacts p json outbox now tx tx'
      → IsSound u tx.db
      → IsSound u tx'.db
  Transacts-IsSound now u tx tx' le =
      Transacts_keep (IsSound u) now (reserve_key-Keeps u now) (insert_event-Keeps u json.octets)
        (λ row ids at.
          insert_event_and_deliveries-Keeps u json.octets row ids (omega (arith, le, at)))
        tx tx'
