-- ===== src/Builder/Built.antt =====
-- When `build` succeeds, and what it has then built.
use rust_events.Base.{
  ◌≡◌, ◌↔◌, refl, false, inl, inr, none, List, [], ◌∷◌, Str, str_eq_iff, ok, HashMap, lookup,
  insert, Result-cases, lookup-insert, get_or, All, arith,
}
use rust_events.Registry.{Registry, RegisteredHandler, find_handler, handler_ids_for}
use rust_events.Builder.Config.{OutboxConfig}
use rust_events.Builder.{PendingHandler, OutboxBuilder, Outbox, add_entry, register_all, build}
use rust_events.Builder.Registration.{
  ids_for, find_pending, registered, IsEntry, HasNewIds, check_entry_complete, register_all-IsEntry,
  register_all-HasNewIds, find_handler-register_all, handler_ids_for-register_all,
}

abbrev no_handlers : {M : Type 0} → Registry M
no_handlers = record { handlers = []; by_type = [] }

-- None of the ids is taken.
abbrev AreFresh : {M : Type 0} → HashMap (RegisteredHandler M) → List (PendingHandler M) → Type 0
AreFresh hs = All (λ e. lookup e.handler_id hs ≡ none)

module _ {M : Type 0} where
  insert-AreFresh :
      (id : Str) (v : RegisteredHandler M) (hs : HashMap (RegisteredHandler M))
      (es : List (PendingHandler M))
      → find_pending id es ≡ none
      → AreFresh hs es
      → AreFresh (insert id v hs) es
  insert-AreFresh id v hs [] h k = tt
  insert-AreFresh id v hs (e ∷ es) h k = ground (
    arith,
    k.0,
    str_eq_iff e.handler_id id,
    str_eq_iff id e.handler_id,
    lookup-insert id e.handler_id v hs,
    insert-AreFresh id v hs es,
    k.1,
  )

  AreFresh-nil : (es : List (PendingHandler M)) → AreFresh [] es
  AreFresh-nil [] = tt
  AreFresh-nil (e ∷ es) = (refl, AreFresh-nil es)

module _ {B M : Type 0} (cfg : OutboxConfig B) where
  register_all_complete :
      (es : List (PendingHandler M)) (r : Registry M)
      → All (IsEntry cfg.handler_timeout) es
      → HasNewIds es
      → AreFresh r.handlers es
      → (r' : Registry M) × (register_all cfg es r ≡ ok r')
  unfolding register_all
  register_all_complete [] r v new fresh = (r, refl)
  register_all_complete (e ∷ es) r v new fresh =
      rw (check_entry_complete cfg r.handlers e v.0 fresh.0) (
        register_all_complete es (add_entry r e) v.1 new.1
          (insert-AreFresh e.handler_id (registered e) r.handlers es new.0 fresh.1))

module _ {B M : Type 0} (fallback : OutboxConfig B) (b : OutboxBuilder B M) where
  abbrev config : OutboxConfig B
  config = get_or b.config fallback

  -- A successful build, opened.
  build-eq-ok :
      {o : Outbox B M}
      → build fallback b ≡ ok o
      → (register_all config b.pending no_handlers ≡ ok o.registry) × (o.config ≡ config)
  unfolding build
  build-eq-ok h = elim (Result-cases (register_all config b.pending no_handlers)) [
    | inl (r, e) ↦ ground (arith, e)
    | inr (x, e) ↦ ground (arith, e)
  ]

  build_total :
      (r : Registry M)
      → register_all config b.pending no_handlers ≡ ok r
      → (o : Outbox B M) × (build fallback b ≡ ok o)
  unfolding build
  build_total r e = (
    record {
      config = config;
      registry = r;
      allow_no_handlers = b.allow_no_handlers;
      started = false;
    },
    rw e,
  )

  -- `OutboxBuilder::build` returns an outbox exactly when every registration has an id of 1 to 128
  -- bytes, no timeout override or one above 400 ms that does not exceed the global timeout, no
  -- concurrency limit or one of 1 to 2147483647, and no two registrations, of whatever event
  -- types, share an id.
  pub build_succeeds_iff :
      ((o : Outbox B M) × (build fallback b ≡ ok o))
      ↔ (All (IsEntry config.handler_timeout) b.pending × HasNewIds b.pending)
  build_succeeds_iff = (
    λ (o, h).
        let e = (build-eq-ok h).0 in
        (
          register_all-IsEntry config b.pending no_handlers e,
          register_all-HasNewIds config b.pending no_handlers e,
        ),
    λ (v, new).
        let (r, e) =
          register_all_complete config b.pending no_handlers v new (AreFresh-nil b.pending) in
        build_total r e,
  )

  -- In a built outbox an id finds its one registration, and an event type has the ids registered
  -- for it, in the order of registration.
  pub build_lookups :
      {o : Outbox B M} (id t : Str)
      → build fallback b ≡ ok o
      → (find_handler o.registry id ≡ find_pending id b.pending)
        × (handler_ids_for o.registry t ≡ ids_for t b.pending)
  unfolding find_handler handler_ids_for
  build_lookups id t h =
      let e = (build-eq-ok h).0 in
      (
        find_handler-register_all config id b.pending no_handlers e,
        handler_ids_for-register_all config t b.pending no_handlers e,
      )
