-- ===== src/Dispatch/Steps.antt =====
-- The steps of `dispatch`, one by one: what each leaves alone, and what its success means.
use rust_events.Base.{
  ℕ, ◌≤◌, ◌≡◌, ◌↔◌, false, Option, none, some, [], ◌∷◌, Str, len, len-is_empty, ok, Action, first,
  select_where, arith,
}
use rust_events.Util.{SqlxError}
use rust_events.Handler.{DomainEvent}
use rust_events.Builder.{Outbox}
use rust_events.Schema.{Db, DispatchKey, Wire, over, reply}
use rust_events.Dispatch.Context.{DispatchContext}
use rust_events.Dispatch.Errors.{DispatchError, idempotency_key_invalid, aggregate_key_invalid}
use rust_events.Dispatch.Transaction.{Pusher, Json, Tx, statement, reserve_key, is_key, has_nul}
use rust_events.Dispatch.{DispatchIo, check_key, validate, encode_payload, encode_headers, reserve}

pub statement-eq-ok :
    {M J A : Type 0} (wire : Wire) (run : Action (Db M) A SqlxError) (tx : Tx M J) {a : A}
    → (statement wire run tx).0 ≡ ok a
    → ((run tx.db).0 ≡ ok a)
      × (statement wire run tx ≡ (ok a, record tx { db = (run tx.db).1 }))
      × (wire ≡ reply)
      × (tx.aborted ≡ false)
unfolding statement over
statement-eq-ok wire run tx h = ground arith

abbrev pub KeyWithin : ℕ → Option Str → Type 0
KeyWithin max none = Unit
KeyWithin max (some k) = (1 ≤ len k) × (len k ≤ max)

check_key_iff :
    {P : Type 0} (max : ℕ) (error : ℕ → ℕ → DispatchError P) (k : Option Str)
    → (check_key max error k ≡ ok tt) ↔ KeyWithin max k
unfolding check_key
check_key_iff max error none = ground arith
check_key_iff max error (some k) = ground (arith, len-is_empty k)

module _ {B M : Type 0} (p : Pusher) (json : Json M) (outbox : Outbox B M) (io : DispatchIo)
    (ctx : DispatchContext M) (e : DomainEvent) (event : e.Event) (tx : Tx M p.Jobs) where
  -- The limits of src/limits.rs on the texts of a dispatch.
  abbrev pub IsWithinLimits : Type 0
  IsWithinLimits =
      (1 ≤ len e.event_type)
      × (len e.event_type ≤ 128)
      × (len ctx.tenant_id ≤ 64)
      × (len ctx.producer_bc ≤ 64)
      × KeyWithin 128 ctx.idempotency_key
      × KeyWithin 128 (e.aggregate_key event)

  pub validate_state : (validate p json outbox io ctx e event tx).1 ≡ tx
  unfolding validate
  validate_state = ground arith

  pub encode_payload_state : (encode_payload p json outbox io ctx e event tx).1 ≡ tx
  unfolding encode_payload
  encode_payload_state = ground arith

  pub encode_headers_state : (encode_headers p json outbox io ctx e event tx).1 ≡ tx
  unfolding encode_headers
  encode_headers_state = ground arith

  pub validate_iff : ((validate p json outbox io ctx e event tx).0 ≡ ok tt) ↔ IsWithinLimits
  unfolding validate
  validate_iff = ground (
    arith,
    len-is_empty e.event_type,
    check_key_iff {P = p.PushError} 128 idempotency_key_invalid ctx.idempotency_key,
    check_key_iff {P = p.PushError} 128 aggregate_key_invalid (e.aggregate_key event),
  )

  abbrev pub key_row : Str → DispatchKey
  key_row key = record {
    tenant_id = ctx.tenant_id;
    idempotency_key = key;
    event_id = io.event_id;
    created_at = io.now;
  }

  pub reserve-eq-none :
      (key : Str)
      → ctx.idempotency_key ≡ some key
      → (reserve p json outbox io ctx e event tx).0 ≡ ok none
      → (has_nul (ctx.tenant_id ∷ key ∷ []) ≡ false)
        × (first (select_where (is_key ctx.tenant_id key) tx.db.dispatch_keys) ≡ none)
        × ((reserve p json outbox io ctx e event tx).1
            ≡ record tx { db = record tx.db { dispatch_keys = key_row key ∷ tx.db.dispatch_keys } })
  unfolding reserve reserve_key statement over
  reserve-eq-none key k h = ground (arith, k)
