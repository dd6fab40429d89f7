-- ===== src/Dispatch/Idempotency.antt =====
-- The idempotency key of a dispatch, in src/outbox.rs.
use rust_events.Base.{
  ℕ, ◌≡◌, sym, ap, refl, ◌∙◌, true, false, none, some, [], ◌∷◌, Str, str_eq_iff, ok, first,
  select_where, arith,
}
use rust_events.Handler.{DomainEvent, Bytes}
use rust_events.Builder.{Outbox}
use rust_events.Schema.{DispatchKey, reply, over}
use rust_events.Dispatch.Context.{DispatchContext}
use rust_events.Dispatch.Errors.{dispatched, duplicate}
use rust_events.Dispatch.Transaction.{Pusher, Json, Tx, is_key, reserve_key, has_nul, statement}
use rust_events.Dispatch.Steps.{IsWithinLimits, key_row, reserve-eq-none}
use rust_events.Dispatch.Rejection.{
  EncodesTo, HasHandlers, handler_ids, dispatch_accepted, dispatch-eq-ok,
}
use rust_events.Dispatch.Effects.{write_event-eq-ok, write_event_writes}
use rust_events.Dispatch.Writes.{reserved_then_wrote}
use rust_events.Dispatch.{DispatchIo, reserve, after_reserve, dispatch}

module _ {B M : Type 0} (p : Pusher) (json : Json M) (outbox : Outbox B M) (io : DispatchIo)
    (ctx : DispatchContext M) (e : DomainEvent) (event : e.Event) (tx : Tx M p.Jobs) where
  reserve_held :
      (key : Str) (k : DispatchKey)
      → ctx.idempotency_key ≡ some key
      → first (select_where (is_key ctx.tenant_id key) tx.db.dispatch_keys) ≡ some k
      → tx.aborted ≡ false
      → io.reserve_wire ≡ reply
      → has_nul (ctx.tenant_id ∷ key ∷ []) ≡ false
      → reserve p json outbox io ctx e event tx ≡ (ok (some k.event_id), tx)
  unfolding reserve reserve_key statement over
  reserve_held key k keyed held live wire clean = ground (arith, keyed, held, live, wire, clean)

  -- An acceptable dispatch whose tenant and key already have an event returns that event's id and
  -- writes nothing: no event, no delivery, no job, no key.
  pub dispatch_duplicate :
      (key : Str) (k : DispatchKey) (payload : Bytes)
      → IsWithinLimits p json outbox io ctx e event tx
      → EncodesTo p json outbox io ctx e event tx payload
      → HasHandlers p json outbox io ctx e event tx
      → ctx.idempotency_key ≡ some key
      → first (select_where (is_key ctx.tenant_id key) tx.db.dispatch_keys) ≡ some k
      → tx.aborted ≡ false
      → io.reserve_wire ≡ reply
      → has_nul (ctx.tenant_id ∷ key ∷ []) ≡ false
      → dispatch p json outbox io ctx e event tx ≡ (ok (duplicate k.event_id), tx)
  unfolding after_reserve
  dispatch_duplicate key k payload within encodes handlers keyed held live wire clean =
      let held' = reserve_held key k keyed held live wire clean in
      dispatch_accepted p json outbox io ctx e event tx payload within encodes handlers
      ∙ ground (arith, held')

  is_key_self :
      (key : Str) (id now : ℕ)
      → is_key ctx.tenant_id key (record {
        tenant_id = ctx.tenant_id;
        idempotency_key = key;
        event_id = id;
        created_at = now;
      })
        ≡ true
  is_key_self key id now =
      ground (arith, (str_eq_iff ctx.tenant_id ctx.tenant_id).1 refl, (str_eq_iff key key).1 refl)

  -- The keys that a dispatched event leaves are those that its reservation left.
  pub dispatched_keys :
      {id n : ℕ}
      → (dispatch p json outbox io ctx e event tx).0 ≡ ok (dispatched id n)
      → let tx' = (dispatch p json outbox io ctx e event tx).1 in
        (id ≡ io.event_id)
        × ((reserve p json outbox io ctx e event tx).0 ≡ ok none)
        × (tx'.db.dispatch_keys ≡ (reserve p json outbox io ctx e event tx).1.db.dispatch_keys)
        × (tx'.aborted ≡ false)
  dispatched_keys {id} {n} h =
      let ids = handler_ids p json outbox io ctx e event tx in
      let (payload, encodes, within, handlers) = dispatch-eq-ok p json outbox io ctx e event tx h in
      let accepted =
        dispatch_accepted p json outbox io ctx e event tx payload within encodes handlers in
      let ended = ap (λ r. r.0) (sym accepted) ∙ h in
      let (free, wrote) = reserved_then_wrote p json outbox io ctx e event tx payload ids ended in
      let t = (reserve p json outbox io ctx e event tx).1 in
      let runs = accepted ∙ wrote in
      let done = ap (λ r. r.0) (sym runs) ∙ h in
      let (same_id, _, _, _) = write_event-eq-ok p json outbox io ctx e event t payload ids done in
      let (_, _, _, keys, live) =
        write_event_writes p json outbox io ctx e event t payload ids done in
      (same_id, free, ap (λ r. r.1.db.dispatch_keys) runs ∙ keys, ap (λ r. r.1.aborted) runs ∙ live)

  -- What a dispatched event leaves under its key.
  pub dispatch_holds_key :
      (key : Str) {id n : ℕ}
      → ctx.idempotency_key ≡ some key
      → (dispatch p json outbox io ctx e event tx).0 ≡ ok (dispatched id n)
      → let tx' = (dispatch p json outbox io ctx e event tx).1 in
        (id ≡ io.event_id)
        × (tx'.db.dispatch_keys ≡ key_row p json outbox io ctx e event tx key ∷ tx.db.dispatch_keys)
        × (tx'.aborted ≡ false)
        × (has_nul (ctx.tenant_id ∷ key ∷ []) ≡ false)
  dispatch_holds_key key keyed h =
      let (same_id, free, keys, live) = dispatched_keys h in
      let (clean, _, reserved) = reserve-eq-none p json outbox io ctx e event tx key keyed free in
      (same_id, keys ∙ ap (λ x. x.db.dispatch_keys) reserved, live, clean)

-- Once an event is dispatched under a tenant's key, the next acceptable dispatch under that tenant
-- and key, of whatever event and in whatever other respect different, returns the first event's id
-- and leaves everything as it was, if the server answers its reservation.
pub dispatch_once :
    {B M : Type 0} (p : Pusher) (json : Json M) (outbox : Outbox B M) (io io' : DispatchIo)
    (ctx ctx' : DispatchContext M) (e e' : DomainEvent) (event : e.Event) (event' : e'.Event)
    (tx : Tx M p.Jobs) (key : Str) (payload' : Bytes) (id n : ℕ)
    → ctx.idempotency_key ≡ some key
    → (dispatch p json outbox io ctx e event tx).0 ≡ ok (dispatched id n)
    → ctx'.tenant_id ≡ ctx.tenant_id
    → ctx'.idempotency_key ≡ some key
    → IsWithinLimits p json outbox io' ctx' e' event' (dispatch p json outbox io ctx e event tx).1
    → EncodesTo p json outbox io' ctx' e' event'
        (dispatch p json outbox io ctx e event tx).1
        payload'
    → HasHandlers p json outbox io' ctx' e' event' (dispatch p json outbox io ctx e event tx).1
    → io'.reserve_wire ≡ reply
    → dispatch p json outbox io' ctx' e' event' (dispatch p json outbox io ctx e event tx).1
      ≡ (ok (duplicate id), (dispatch p json outbox io ctx e event tx).1)
dispatch_once p json outbox io io' ctx ctx' e e' event event' tx key payload' id n keyed h tenant
      keyed' within encodes handlers wire =
    let tx' = (dispatch p json outbox io ctx e event tx).1 in
    let (same_id, keys, live, clean) =
      dispatch_holds_key p json outbox io ctx e event tx key keyed h in
    let row = key_row p json outbox io ctx e event tx key in
    dispatch_duplicate p json outbox io' ctx' e' event' tx' key row payload' within encodes handlers
      keyed'
      (ground
        (arith, keys, tenant, is_key_self p json outbox io ctx e event tx key io.event_id io.now))
      live wire (rw tenant clean)
    ∙ ap (λ i. (ok (duplicate i), tx')) (sym same_id)
