-- ===== src/System/Duplicates.antt =====
-- What `Duplicate` says.
use rust_events.Base.{
  ℕ, ◌≢◌, ◌≡◌, sym, ap, ◌∙◌, Bool, true, inl, inr, Bool-cases, Option-cases, Result-cases, Option,
  none, some, List, [], ◌∷◌, Str, ok, All, first, select_where, is_empty, >>=-eq-ok, arith,
}
use rust_events.Handler.{DomainEvent, Bytes}
use rust_events.Registry.{handler_ids_for}
use rust_events.Builder.{Outbox}
use rust_events.Schema.{DispatchKey, over}
use rust_events.Dispatch.Context.{DispatchContext}
use rust_events.Dispatch.Errors.{duplicate}
use rust_events.Dispatch.Transaction.{Pusher, Json, Tx, statement, reserve_key, is_key}
use rust_events.Dispatch.Rejection.{dispatch-eq-ok, dispatch_accepted}
use rust_events.Dispatch.{
  DispatchIo, encode_headers, reserve, insert_rows, push_jobs, write_event, after_reserve, dispatch,
}
use rust_events.Purge.Statements.{has_id}
use rust_events.System.{KeysRefer}

first-All :
    {A : Type 0} (P : A → Type 0) (f : A → Bool) (xs : List A) (a : A)
    → All P xs
    → first (select_where f xs) ≡ some a
    → P a
first-All P f [] a h e = absurd (ground (arith, e))
first-All P f (x ∷ xs) a h e = elim (Bool-cases (f x)) [
  | inl hit ↦ let same : x ≡ a = ground (arith, hit, e) in rw (sym same) h.0
  | inr miss ↦ first-All P f xs a h.1 (rw miss at e)
]

module _ {B M : Type 0} (p : Pusher) (json : Json M) (outbox : Outbox B M) (io : DispatchIo)
    (ctx : DispatchContext M) (e : DomainEvent) (event : e.Event) where
  write_event-not_duplicate :
      (payload : Bytes) (ids : List Str) (tx : Tx M p.Jobs) (id : ℕ)
      → (write_event p json outbox io ctx e event payload ids tx).0 ≢ ok (duplicate id)
  unfolding write_event push_jobs
  write_event-not_duplicate payload ids tx id h =
      elim (Result-cases (encode_headers p json outbox io ctx e event tx).0) [
        | inr (x, c) ↦ ground (arith, c, h)
        | inl (text, c) ↦
            let t = (encode_headers p json outbox io ctx e event tx).1 in
            elim (Result-cases
              (statement io.insert_wire (insert_rows p json outbox io ctx e event payload text ids)
                t).0) [
                  | inr (x, w) ↦ ground (arith, c, w, h)
                  | inl (_, w) ↦ elim (Bool-cases (is_empty ids)) [
                    | inl nobody ↦ ground (arith, c, w, nobody, h)
                    | inr some_id ↦ ground (arith, c, w, some_id, h)
                  ]
                ]
      ]

module _ {B M : Type 0} (p : Pusher) (json : Json M) (outbox : Outbox B M) (io : DispatchIo)
    (ctx : DispatchContext M) (e : DomainEvent) (event : e.Event) (tx : Tx M p.Jobs) where
  reserve-eq-some :
      (id : ℕ)
      → (reserve p json outbox io ctx e event tx).0 ≡ ok (some id)
      → (key : Str) × (k : DispatchKey) × (ctx.idempotency_key ≡ some key)
        × (first (select_where (is_key ctx.tenant_id key) tx.db.dispatch_keys) ≡ some k)
        × (k.event_id ≡ id)
        × (reserve p json outbox io ctx e event tx ≡ (ok (some id), tx))
  unfolding reserve reserve_key statement over
  reserve-eq-some id h = elim (Option-cases ctx.idempotency_key) [
    | inl none_given ↦ absurd (ground (arith, none_given, h))
    | inr (key, given) ↦
        elim (Option-cases (first (select_where (is_key ctx.tenant_id key) tx.db.dispatch_keys))) [
          | inl fresh ↦ absurd (ground (arith, given, fresh, h))
          | inr (k, found) ↦ (
            key,
            k,
            given,
            found,
            ground (arith, given, found, h),
            ground (arith, given, found, h),
          )
        ]
  ]

  names_event :
      (id : ℕ) (payload : Bytes) (ids : List Str)
      → KeysRefer tx.db
      → (dispatch p json outbox io ctx e event tx).0 ≡ ok (duplicate id)
      → (existing : Option ℕ) → (reserve p json outbox io ctx e event tx).0 ≡ ok existing
      → dispatch p json outbox io ctx e event tx
        ≡ after_reserve p json outbox io ctx e event payload ids existing
            (reserve p json outbox io ctx e event tx).1
      → (dispatch p json outbox io ctx e event tx ≡ (ok (duplicate id), tx))
        × (has_id tx.db.events id ≡ true)
        × ((key : Str) × (k : DispatchKey) × (ctx.idempotency_key ≡ some key)
            × (first (select_where (is_key ctx.tenant_id key) tx.db.dispatch_keys) ≡ some k)
            × (k.event_id ≡ id))
  unfolding after_reserve
  names_event id payload ids refer h none reserved runs = absurd (
      write_event-not_duplicate p json outbox io ctx e event payload ids
        (reserve p json outbox io ctx e event tx).1 id (ap (λ r. r.0) (sym runs) ∙ h))
  names_event id payload ids refer h (some held) reserved runs =
      let (key, k, given, found, same, still) = reserve-eq-some held reserved in
      let same_id : held ≡ id = ground (arith, runs, h) in
      let here =
        first-All (λ k. has_id tx.db.events k.event_id ≡ true) (is_key ctx.tenant_id key)
          tx.db.dispatch_keys k refer found in
      (
        runs ∙ ground (arith, still, same_id),
        ap (has_id tx.db.events) (sym (same ∙ same_id)) ∙ here,
        (key, k, given, found, same ∙ same_id),
      )

  -- A dispatch that returns `Duplicate`, on tables whose keys have their events, has written nothing,
  -- and the event that it names is in the tables: the one that holds the context's key for its
  -- tenant.
  pub duplicate_names_event :
      (id : ℕ)
      → KeysRefer tx.db
      → (dispatch p json outbox io ctx e event tx).0 ≡ ok (duplicate id)
      → (dispatch p json outbox io ctx e event tx ≡ (ok (duplicate id), tx))
        × (has_id tx.db.events id ≡ true)
        × ((key : Str) × (k : DispatchKey) × (ctx.idempotency_key ≡ some key)
            × (first (select_where (is_key ctx.tenant_id key) tx.db.dispatch_keys) ≡ some k)
            × (k.event_id ≡ id))
  duplicate_names_event id refer h =
      let ids = handler_ids_for outbox.registry e.event_type in
      let (payload, encodes, within, handlers) = dispatch-eq-ok p json outbox io ctx e event tx h in
      let accepted =
        dispatch_accepted p json outbox io ctx e event tx payload within encodes handlers in
      let (existing, reserved, goes_on) =
        >>=-eq-ok (reserve p json outbox io ctx e event)
          (after_reserve p json outbox io ctx e event payload ids) tx
          (ap (λ r. r.0) (sym accepted) ∙ h) in
      names_event id payload ids refer h existing reserved (accepted ∙ goes_on)
