-- ===== src/Dispatch/Rejection.antt =====
-- What `dispatch` refuses before it writes anything.
use rust_events.Base.{
  ◌≤◌, ◌≡◌, ◌⊎◌, false, not, ◌&&◌, inl, inr, List, Str, ok, err, Result-cases, Bool-cases, is_empty,
  length, ◌>>=◌, arith,
}
use rust_events.Handler.{DomainEvent, Bytes}
use rust_events.Registry.{handler_ids_for}
use rust_events.Builder.{Outbox}
use rust_events.Dispatch.Context.{DispatchContext}
use rust_events.Dispatch.Errors.{DispatchError, DispatchOutcome, no_handlers_registered}
use rust_events.Dispatch.Transaction.{Pusher, Json, Tx}
use rust_events.Dispatch.Steps.{IsWithinLimits, validate_state, validate_iff, encode_payload_state}
use rust_events.Dispatch.{DispatchIo, validate, encode_payload, reserve, after_reserve, dispatch}

module _ {B M : Type 0} (p : Pusher) (json : Json M) (outbox : Outbox B M) (io : DispatchIo)
    (ctx : DispatchContext M) (e : DomainEvent) (event : e.Event) (tx : Tx M p.Jobs) where
  -- The payload encodes to at most 1 MiB.
  abbrev pub EncodesTo : Bytes → Type 0
  EncodesTo payload = (e.to_vec event ≡ ok payload) × (length payload ≤ 1_048_576)

  -- Some handler is registered for the event type, or none is needed.
  abbrev pub HasHandlers : Type 0
  HasHandlers =
      (is_empty (handler_ids_for outbox.registry e.event_type) && not outbox.allow_no_handlers)
      ≡ false

  encode_payload-eq-ok :
      {payload : Bytes}
      → (encode_payload p json outbox io ctx e event tx).0 ≡ ok payload
      → EncodesTo payload
  unfolding encode_payload
  encode_payload-eq-ok h = ground arith

  encode_payload_lem :
      (payload : Bytes)
      → EncodesTo payload
      → encode_payload p json outbox io ctx e event tx ≡ (ok payload, tx)
  unfolding encode_payload
  encode_payload_lem payload h = ground arith

  abbrev pub handler_ids : List Str
  handler_ids = handler_ids_for outbox.registry e.event_type

  -- On acceptable input all that is left is to reserve the key and to write.
  pub dispatch_accepted :
      (payload : Bytes)
      → IsWithinLimits p json outbox io ctx e event tx
      → EncodesTo payload
      → HasHandlers
      → dispatch p json outbox io ctx e event tx
        ≡ (reserve p json outbox io ctx e event
              >>= after_reserve p json outbox io ctx e event payload handler_ids)
            tx
  unfolding dispatch
  dispatch_accepted payload within encodes handlers = ground (
    arith,
    (validate_iff p json outbox io ctx e event tx).1 within,
    validate_state p json outbox io ctx e event tx,
    encode_payload_lem payload encodes,
  )

  pub dispatch_cases :
      ((x : DispatchError p.PushError) × (dispatch p json outbox io ctx e event tx ≡ (err x, tx)))
      ⊎ ((payload : Bytes) × EncodesTo payload
          × IsWithinLimits p json outbox io ctx e event tx
          × HasHandlers)
  unfolding dispatch
  dispatch_cases =
      let still = validate_state p json outbox io ctx e event tx in
      let encoded = encode_payload_state p json outbox io ctx e event tx in
      elim (Result-cases (validate p json outbox io ctx e event tx).0) [
        | inr (x, v) ↦ inl (x, ground (arith, still))
        | inl (_, v) ↦ elim (Result-cases (encode_payload p json outbox io ctx e event tx).0) [
          | inr (x, c) ↦ inl (x, ground (arith, still, encoded))
          | inl (payload, c) ↦
              elim (Bool-cases (is_empty handler_ids && not outbox.allow_no_handlers)) [
                | inl missing ↦
                    inl (no_handlers_registered e.event_type, ground (arith, still, encoded))
                | inr handlers ↦ inr (
                  payload,
                  encode_payload-eq-ok c,
                  (validate_iff p json outbox io ctx e event tx).0 v,
                  handlers,
                )
              ]
        ]
      ]

  -- A dispatch beyond the limits on its texts, of an event that does not encode to at most 1 MiB, or
  -- of an event type without handlers in strict mode returns an error and leaves the transaction as
  -- it was.
  pub dispatch_rejects :
      ¬ (
        ((payload : Bytes) × EncodesTo payload)
        × IsWithinLimits p json outbox io ctx e event tx
        × HasHandlers)
      → (x : DispatchError p.PushError) × (dispatch p json outbox io ctx e event tx ≡ (err x, tx))
  dispatch_rejects bad = elim dispatch_cases [
    | inl refused ↦ refused
    | inr (payload, encodes, within, handlers) ↦ absurd (bad ((payload, encodes), within, handlers))
  ]

  -- A successful dispatch had acceptable input.
  pub dispatch-eq-ok :
      {outcome : DispatchOutcome}
      → (dispatch p json outbox io ctx e event tx).0 ≡ ok outcome
      → (payload : Bytes) × EncodesTo payload
        × IsWithinLimits p json outbox io ctx e event tx
        × HasHandlers
  dispatch-eq-ok h = elim dispatch_cases [
    | inl (x, refused) ↦ absurd (ground (arith, h, refused))
    | inr accepted ↦ accepted
  ]
