-- ===== src/Builder/Registration.antt =====
-- What a built registry holds, against the list of registrations.
use rust_events.Base.{
  ℕ, ◌≤◌, ◌<◌, ◌≡◌, refl, false, Option, none, some, List, [], ◌∷◌, ◌++◌, Str, str_eq, str_eq_iff,
  str_eq_refl, len, ok, HashMap, lookup, lookup-insert, lookup-push_at, is_empty, All,
  if◌then◌else◌, arith,
}
use rust_events.Base.Try.{>>-eq-ok}
use mathlib.Core.List.{append-nil, append_assoc}
use rust_events.Registry.{Registry, RegisteredHandler, find_handler, handler_ids_for}
use rust_events.Handler.{ms}
use rust_events.Builder.Config.{OutboxConfig}
use rust_events.Builder.{PendingHandler, i32_max, check_entry, add_entry, register_all}

-- The ids registered for a type, in the order of registration.
abbrev pub ids_for : {M : Type 0} → Str → List (PendingHandler M) → List Str
ids_for t [] = []
ids_for t (e ∷ es) = if str_eq e.event_type t then e.handler_id ∷ ids_for t es else ids_for t es

abbrev pub registered : {M : Type 0} → PendingHandler M → RegisteredHandler M
registered e = record {
  handler = e.handler;
  handler_timeout = e.handler_timeout;
  concurrency_limit = e.concurrency_limit;
}

-- The first registration under an id.
abbrev pub find_pending :
    {M : Type 0} → Str → List (PendingHandler M) → Option (RegisteredHandler M)
find_pending id [] = none
find_pending id (e ∷ es) =
    if str_eq e.handler_id id then some (registered e) else find_pending id es

abbrev pub or_else : {A : Type 0} → Option A → Option A → Option A
or_else none b = b
or_else (some a) b = some a

abbrev pub IsTimeout : ℕ → Option ℕ → Type 0
IsTimeout global none = Unit
IsTimeout global (some ht) = (ms 400 < ht) × (ht ≤ global)

abbrev pub IsLimit : Option ℕ → Type 0
IsLimit none = Unit
IsLimit (some n) = (1 ≤ n) × (n ≤ i32_max)

-- What `build` asks of one registration by itself.
abbrev pub IsEntry : {M : Type 0} → ℕ → PendingHandler M → Type 0
IsEntry global e =
    (is_empty e.handler_id ≡ false)
    × (len e.handler_id ≤ 128)
    × IsTimeout global e.handler_timeout
    × IsLimit e.concurrency_limit

-- No id is registered twice, whatever the event types.
abbrev pub HasNewIds : {M : Type 0} → List (PendingHandler M) → Type 0
HasNewIds [] = Unit
HasNewIds (e ∷ es) = (find_pending e.handler_id es ≡ none) × HasNewIds es

module _ {B M : Type 0} (cfg : OutboxConfig B) where
  check_entry_sound :
      (hs : HashMap (RegisteredHandler M)) (e : PendingHandler M)
      → check_entry cfg hs e ≡ ok tt
      → IsEntry cfg.handler_timeout e × (lookup e.handler_id hs ≡ none)
  unfolding check_entry
  check_entry_sound hs e h = ground arith

  pub check_entry_complete :
      (hs : HashMap (RegisteredHandler M)) (e : PendingHandler M)
      → IsEntry cfg.handler_timeout e
      → lookup e.handler_id hs ≡ none
      → check_entry cfg hs e ≡ ok tt
  unfolding check_entry
  check_entry_complete hs e v fresh = ground arith

  -- One turn of the loop, opened.
  register_all-cons :
      (e : PendingHandler M) (es : List (PendingHandler M)) (r : Registry M) {r' : Registry M}
      → register_all cfg (e ∷ es) r ≡ ok r'
      → (IsEntry cfg.handler_timeout e × (lookup e.handler_id r.handlers ≡ none))
        × (register_all cfg es (add_entry r e) ≡ ok r')
  unfolding register_all
  register_all-cons e es r h =
      let (checked, rest) = >>-eq-ok (check_entry cfg r.handlers e) _ h in
      (check_entry_sound r.handlers e checked, rest)

  pub register_all-IsEntry :
      (es : List (PendingHandler M)) (r : Registry M) {r' : Registry M}
      → register_all cfg es r ≡ ok r'
      → All (IsEntry cfg.handler_timeout) es
  register_all-IsEntry [] r h = tt
  register_all-IsEntry (e ∷ es) r h =
      let (v, rest) = register_all-cons e es r h in
      (v.0, register_all-IsEntry es (add_entry r e) rest)

  -- An id that is taken is registered no more.
  register_all-taken :
      (id : Str) (v : RegisteredHandler M) (es : List (PendingHandler M)) (r : Registry M)
      {r' : Registry M}
      → register_all cfg es r ≡ ok r'
      → lookup id r.handlers ≡ some v
      → find_pending id es ≡ none
  register_all-taken id v [] r h taken = refl
  register_all-taken id v (e ∷ es) r h taken =
      let (w, rest) = register_all-cons e es r h in
      ground (
        arith,
        w.1,
        str_eq_iff e.handler_id id,
        lookup-insert e.handler_id id (registered e) r.handlers,
        register_all-taken id v es (add_entry r e) rest,
      )

  pub register_all-HasNewIds :
      (es : List (PendingHandler M)) (r : Registry M) {r' : Registry M}
      → register_all cfg es r ≡ ok r'
      → HasNewIds es
  register_all-HasNewIds [] r h = tt
  register_all-HasNewIds (e ∷ es) r h =
      let (v, rest) = register_all-cons e es r h in
      (
        register_all-taken e.handler_id (registered e) es (add_entry r e) rest (
            rw (
              lookup-insert e.handler_id e.handler_id (registered e) r.handlers,
              str_eq_refl e.handler_id,
            )),
        register_all-HasNewIds es (add_entry r e) rest,
      )

  pub find_handler-register_all :
      (id : Str) (es : List (PendingHandler M)) (r : Registry M) {r' : Registry M}
      → register_all cfg es r ≡ ok r'
      → find_handler r' id ≡ or_else (find_handler r id) (find_pending id es)
  unfolding find_handler register_all
  find_handler-register_all id [] r h = ground arith
  find_handler-register_all id (e ∷ es) r h =
      let (w, rest) = register_all-cons e es r h in
      let later = find_handler-register_all id es (add_entry r e) rest in
      ground (
        arith,
        w.1,
        later,
        str_eq_iff e.handler_id id,
        lookup-insert e.handler_id id (registered e) r.handlers,
      )

  pub handler_ids_for-register_all :
      (t : Str) (es : List (PendingHandler M)) (r : Registry M) {r' : Registry M}
      → register_all cfg es r ≡ ok r'
      → handler_ids_for r' t ≡ handler_ids_for r t ++ ids_for t es
  unfolding handler_ids_for register_all
  handler_ids_for-register_all t [] r h = ground (arith, append-nil (handler_ids_for r t))
  handler_ids_for-register_all t (e ∷ es) r h =
      let (w, rest) = register_all-cons e es r h in
      let here = handler_ids_for r t in
      ground (
        arith,
        handler_ids_for-register_all t es (add_entry r e) rest,
        lookup-push_at e.event_type t e.handler_id r.by_type,
        append_assoc here (e.handler_id ∷ []) (ids_for t es),
        append_assoc here [] (ids_for t es),
      )
