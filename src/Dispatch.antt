-- ===== src/Dispatch.antt =====
-- `Outbox::dispatch` of src/outbox.rs, which writes an event, its deliveries and its jobs to the
-- caller's transaction. The environment is an argument: the new id, the transaction's clock and the
-- wire of the statements.
pub mod Context
pub mod Errors
pub mod Transaction
pub mod Steps
pub mod Rejection
pub mod Effects
pub mod Writes
pub mod Idempotency
use rust_events.Base.{
  ℕ, Bool, true, false, not, ◌&&◌, ◌||◌, Option, none, some, List, [], ◌∷◌, map, Str, str, len,
  Result, ok, err, Action, pure, raise, lift, catch, raise_if, map_err, ◌>>=◌, ◌>>◌, is_empty,
  length, get_or, ltb, if◌then◌else◌,
}
use mathlib.Core.Option
use rust_events.Limits.{
  max_event_type_bytes, max_tenant_bytes, max_bc_bytes, max_idempotency_key_bytes,
  max_aggregate_key_bytes, max_payload_bytes, max_headers_bytes,
}
use rust_events.Util.{SqlxError, JsonValue}
use rust_events.Handler.{DomainEvent, HandlerEnvelope, Bytes}
use rust_events.Registry.{Registry, RegisteredHandler, find_handler, handler_ids_for}
use rust_events.Builder.{Outbox}
use rust_events.Schema.{Db, EventRow, Wire}
use Context.{DispatchContext}
use Errors.{
  DispatchError, tenant_id_too_long, producer_bc_too_long, event_type_invalid,
  idempotency_key_invalid, aggregate_key_invalid, payload_too_large, headers_too_large,
  no_handlers_registered, codec, pgwq_push, DispatchOutcome, dispatched, duplicate, no_handlers,
  from_sqlx,
}
use Transaction.{
  Pusher, Json, Tx, statement, reserve_key, insert_event, insert_event_and_deliveries,
}

abbrev pub pgwq_queue : Str
pgwq_queue = str "outbox_handler_deliveries"

pub record DispatchIo : Type 0 where
  -- `Uuid::now_v7()`
  pub event_id : ℕ
  -- The transaction's `now()`.
  pub now : ℕ
  pub reserve_wire : Wire
  pub insert_wire : Wire

-- `k.is_empty() || k.len() > max`
abbrev pub is_bad_key : ℕ → Str → Bool
is_bad_key max k = is_empty k || ltb max (len k)

module _ {P : Type 0} where
  -- `if let Some(k) = key && (…) { return Err(…); }`
  unfoldable pub check_key :
      ℕ → (ℕ → ℕ → DispatchError P) → Option Str → Result (Unit {0}) (DispatchError P)
  check_key max error none = ok tt
  check_key max error (some k) = if is_bad_key max k then err (error (len k) max) else ok tt

-- Step 9: a job for each handler, keyed by the handler if it has a concurrency limit.
unfoldable pub envelope_for : {M : Type 0} → Registry M → ℕ → Str → HandlerEnvelope × Option Str
envelope_for registry event_id hid = (
  record { event_id = event_id; handler_id = hid },
  elim (find_handler registry hid) [
    | none ↦ none
    | some h ↦ Option.map (λ _. hid) h.concurrency_limit
  ],
)

module _ {B M : Type 0} (p : Pusher) (json : Json M) (outbox : Outbox B M) (io : DispatchIo)
    (ctx : DispatchContext M) (e : DomainEvent) (event : e.Event) where
  -- Step 1.
  unfoldable pub validate : Action (Tx M p.Jobs) (Unit {0}) (DispatchError p.PushError)
  validate = do
    raise_if (is_bad_key max_event_type_bytes e.event_type)
        (event_type_invalid (len e.event_type) max_event_type_bytes)
    raise_if (ltb max_tenant_bytes (len ctx.tenant_id))
        (tenant_id_too_long (len ctx.tenant_id) max_tenant_bytes)
    raise_if (ltb max_bc_bytes (len ctx.producer_bc))
        (producer_bc_too_long (len ctx.producer_bc) max_bc_bytes)
    lift (check_key max_idempotency_key_bytes idempotency_key_invalid ctx.idempotency_key)
    lift (check_key max_aggregate_key_bytes aggregate_key_invalid (e.aggregate_key event))

  -- Step 2.
  unfoldable pub encode_payload : Action (Tx M p.Jobs) Bytes (DispatchError p.PushError)
  encode_payload = do
    payload ← lift (map_err codec (e.to_vec event))
    raise_if (ltb max_payload_bytes (length payload))
        (payload_too_large (length payload) max_payload_bytes)
    pure payload

  -- Step 5: the id of the event that holds the key, if it is another's.
  unfoldable pub reserve : Action (Tx M p.Jobs) (Option ℕ) (DispatchError p.PushError)
  reserve = elim ctx.idempotency_key [
    | none ↦ pure none
    | some key ↦ do
      (event_id, inserted) ←
          catch from_sqlx
            (statement io.reserve_wire (reserve_key io.now ctx.tenant_id key io.event_id))
      pure (if inserted then none else some event_id)
  ]

  -- Step 6.
  unfoldable pub encode_headers : Action (Tx M p.Jobs) Str (DispatchError p.PushError)
  encode_headers = do
    headers_text ← lift (map_err codec (json.to_string (get_or ctx.headers json.empty)))
    raise_if (ltb max_headers_bytes (len headers_text))
        (headers_too_large (len headers_text) max_headers_bytes)
    pure headers_text

  -- The row that `VALUES ($1, …, $7::jsonb)` writes.
  abbrev pub event_row : Bytes → JsonValue M → EventRow M
  event_row payload headers = record {
    id = io.event_id;
    event_type = e.event_type;
    producer_bc = ctx.producer_bc;
    tenant_id = ctx.tenant_id;
    aggregate_key = e.aggregate_key event;
    payload = payload;
    headers = headers;
    created_at = io.now;
  }

  -- The statement of step 7 or 8. The cast of the headers is part of it.
  unfoldable pub insert_rows : Bytes → Str → List Str → Action (Db M) (Unit {0}) SqlxError
  insert_rows payload headers_text handler_ids db = elim (json.jsonb_in headers_text) [
    | err x ↦ (err x, db)
    | ok headers ↦
        if is_empty handler_ids
        then insert_event json.octets (event_row payload headers) db
        else insert_event_and_deliveries json.octets (event_row payload headers) handler_ids db
  ]

  -- Step 9.
  unfoldable pub push_jobs : List Str → Action (Tx M p.Jobs) (Unit {0}) (DispatchError p.PushError)
  push_jobs handler_ids tx =
      let envelopes = map (envelope_for outbox.registry io.event_id) handler_ids in
      let (pushed, jobs) = p.push_batch pgwq_queue envelopes tx.jobs in
      (map_err pgwq_push pushed, record tx { jobs = jobs })

  -- Steps 6 to 9, once the key is reserved.
  unfoldable pub write_event :
      Bytes → List Str → Action (Tx M p.Jobs) DispatchOutcome (DispatchError p.PushError)
  write_event payload handler_ids = do
    headers_text ← encode_headers
    catch from_sqlx (statement io.insert_wire (insert_rows payload headers_text handler_ids))
    if is_empty handler_ids
        then pure (no_handlers io.event_id)
        else (push_jobs handler_ids >> pure (dispatched io.event_id (length handler_ids)))

  -- A key that another event holds ends the dispatch.
  unfoldable pub after_reserve :
      Bytes → List Str → Option ℕ → Action (Tx M p.Jobs) DispatchOutcome (DispatchError p.PushError)
  after_reserve payload handler_ids (some event_id) = pure (duplicate event_id)
  after_reserve payload handler_ids none = write_event payload handler_ids

  unfoldable pub dispatch : Action (Tx M p.Jobs) DispatchOutcome (DispatchError p.PushError)
  dispatch = do
    validate
    payload ← encode_payload
    let handler_ids = handler_ids_for outbox.registry e.event_type
    raise_if (is_empty handler_ids && not outbox.allow_no_handlers)
        (no_handlers_registered e.event_type)
    existing ← reserve
    after_reserve payload handler_ids existing
