-- ===== src/System/Keyed.antt =====
-- The idempotency key that the worker finds for a dispatched event.
use rust_events.Base.{
  ℕ, ◌≡◌, refl, sym, ap, ◌∙◌, false, inl, inr, Option-cases, none, List, [], ◌∷◌, ok, any, ◌==◌,
  arith,
}
use rust_events.Handler.{DomainEvent}
use rust_events.Builder.{Outbox}
use rust_events.Schema.{DispatchKey}
use rust_events.Dispatch.Context.{DispatchContext}
use rust_events.Dispatch.Errors.{dispatched}
use rust_events.Dispatch.Transaction.{Pusher, Json, Tx}
use rust_events.Dispatch.Idempotency.{dispatched_keys, dispatch_holds_key}
use rust_events.Dispatch.{DispatchIo, reserve, dispatch}
use rust_events.Runtime.Claim.{key_of_event}

key_of_event-none :
    (i : ℕ) (ks : List DispatchKey)
    → any (λ k. k.event_id == i) ks ≡ false
    → key_of_event i ks ≡ none
key_of_event-none i [] h = refl
key_of_event-none i (k ∷ ks) h = ground (arith, h, key_of_event-none i ks)

module _ {B M : Type 0} (p : Pusher) (json : Json M) (outbox : Outbox B M) (io : DispatchIo)
    (ctx : DispatchContext M) (e : DomainEvent) (event : e.Event) (tx : Tx M p.Jobs) where
  reserve_without_key :
      ctx.idempotency_key ≡ none → (reserve p json outbox io ctx e event tx).1 ≡ tx
  unfolding reserve
  reserve_without_key h = ground (arith, h)

  -- It is the context's, if no key referred to the new event before.
  pub key_of_event-dispatch :
      {id n : ℕ}
      → (dispatch p json outbox io ctx e event tx).0 ≡ ok (dispatched id n)
      → any (λ k. k.event_id == io.event_id) tx.db.dispatch_keys ≡ false
      → key_of_event io.event_id (dispatch p json outbox io ctx e event tx).1.db.dispatch_keys
        ≡ ctx.idempotency_key
  key_of_event-dispatch h new = elim (Option-cases ctx.idempotency_key) [
    | inl none_given ↦
        let (_, _, keys, _) = dispatched_keys p json outbox io ctx e event tx h in
        rw (keys ∙ ap (λ t. t.db.dispatch_keys) (reserve_without_key none_given))
          (key_of_event-none io.event_id tx.db.dispatch_keys new ∙ sym none_given)
    | inr (key, given) ↦
        let (_, keys, _, _) = dispatch_holds_key p json outbox io ctx e event tx key given h in
        rw keys (ground (arith, given))
  ]
