-- ===== src/System/Rivals.antt =====
-- Dispatches (src/outbox.rs) of open transactions under one key.
use rust_events.Base.{ℕ, ◌≡◌, sym, ap, subst, ◌∙◌, true, false, none, some, Str, ok, arith}
use rust_events.Handler.{DomainEvent, Bytes}
use rust_events.Builder.{Outbox}
use rust_events.Schema.{reply, over}
use rust_events.Dispatch.Context.{DispatchContext}
use rust_events.Dispatch.Errors.{dispatched, duplicate}
use rust_events.Dispatch.Transaction.{Pusher, Json, Tx, statement, reserve_key}
use rust_events.Dispatch.Steps.{IsWithinLimits}
use rust_events.Dispatch.Rejection.{EncodesTo, HasHandlers}
use rust_events.Dispatch.Idempotency.{dispatch_duplicate, dispatched_keys}
use rust_events.Dispatch.{DispatchIo, reserve, dispatch}
use rust_events.System.Races.{
  Shared, visible, is_locked_by_others, upsert, commit, roll_back, RaceRuns,
}
use rust_events.System.Locks.{key_row}
use rust_events.System.Answers.{upsert-eq-ok}
use rust_events.System.Winners.{race_for_key}

module _ {B M : Type 0} (p : Pusher) (json : Json M) (outbox : Outbox B M) (io : DispatchIo)
    (ctx : DispatchContext M) (e : DomainEvent) (event : e.Event) where
  -- The upsert of a dispatch that goes on to write its event.
  reserve-reserve_key :
      (key : Str) (t : Tx M p.Jobs)
      → ctx.idempotency_key ≡ some key
      → (reserve p json outbox io ctx e event t).0 ≡ ok none
      → (reserve_key io.now ctx.tenant_id key io.event_id t.db).0 ≡ ok (io.event_id, true)
  unfolding reserve statement over reserve_key
  reserve-reserve_key key t keyed went = ground (arith, keyed, went)

  reserve-upsert :
      (key : Str) (mine : ℕ) (s : Shared M) (t : Tx M p.Jobs)
      → t.db ≡ visible mine s
      → ctx.idempotency_key ≡ some key
      → (reserve p json outbox io ctx e event t).0 ≡ ok none
      → (upsert io.now mine ctx.tenant_id key io.event_id s).0 ≡ ok (io.event_id, true)
  reserve-upsert key mine s t same keyed went =
      let answered : (reserve_key io.now ctx.tenant_id key io.event_id (visible mine s)).0
          ≡ ok (io.event_id, true) =
        subst
          (λ db. (reserve_key io.now ctx.tenant_id key io.event_id db).0 ≡ ok (io.event_id, true))
          same (reserve-reserve_key key t keyed went) in
      ground (arith, answered)

-- A race of dispatches for a key has one winner. The first of them has returned `Dispatched`, while no
-- other transaction had the key's lock; until its transaction ends, others upsert, commit, roll back,
-- purge and write elsewhere. If it commits, then an acceptable dispatch under the tenant's key in
-- another transaction, which may have waited, is let in, returns the first event's id and leaves its
-- transaction as it was, if the server answers its reservation. If the first rolls back, the other is
-- let in and finds the key free.
pub race_has_one_winner :
    {B M : Type 0} (p : Pusher) (json : Json M) (outbox : Outbox B M) (io io' : DispatchIo)
    (ctx ctx' : DispatchContext M) (e e' : DomainEvent) (event : e.Event) (event' : e'.Event)
    (t t' : Tx M p.Jobs) (key : Str) (payload' : Bytes) (id n mine tx : ℕ) (s s' : Shared M)
    → t.db ≡ visible mine s
    → ctx.idempotency_key ≡ some key
    → is_locked_by_others mine ctx.tenant_id key s ≡ false
    → (dispatch p json outbox io ctx e event t).0 ≡ ok (dispatched id n)
    → RaceRuns mine (upsert io.now mine ctx.tenant_id key io.event_id s).1 s'
    → t'.db ≡ visible tx (commit mine s')
    → ctx'.tenant_id ≡ ctx.tenant_id
    → ctx'.idempotency_key ≡ some key
    → IsWithinLimits p json outbox io' ctx' e' event' t'
    → EncodesTo p json outbox io' ctx' e' event' t' payload'
    → HasHandlers p json outbox io' ctx' e' event' t'
    → t'.aborted ≡ false
    → io'.reserve_wire ≡ reply
    → ((is_locked_by_others tx ctx.tenant_id key (commit mine s') ≡ false)
        × (dispatch p json outbox io' ctx' e' event' t' ≡ (ok (duplicate id), t')))
      × ((is_locked_by_others tx ctx.tenant_id key (roll_back mine s') ≡ false)
          × (key_row ctx.tenant_id key (visible tx (roll_back mine s')).dispatch_keys ≡ none))
race_has_one_winner p json outbox io io' ctx ctx' e e' event event' t t' key payload' id n mine tx s
      s' same keyed free went runs same' tenant keyed' within encodes handlers live wire =
    let (same_id, reserved, _, _) = dispatched_keys p json outbox io ctx e event t went in
    let answered = reserve-upsert p json outbox io ctx e event key mine s t same keyed reserved in
    let clean =
      upsert-eq-ok io.now mine io.event_id ctx.tenant_id key s (io.event_id, true) answered in
    let (row, names, (open_to, there), rolled_back) =
      race_for_key ctx.tenant_id key mine io.now io.event_id s s' tx free answered runs in
    (
      (
        open_to,
        dispatch_duplicate p json outbox io' ctx' e' event' t' key row payload' within encodes
              handlers keyed' (rw (same', tenant) there) live wire (rw tenant clean)
            ∙ ap (λ i. (ok (duplicate i), t')) (names ∙ sym same_id),
      ),
      rolled_back,
    )
