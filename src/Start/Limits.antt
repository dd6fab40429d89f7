-- ===== src/Start/Limits.antt =====
-- The concurrency keys of the jobs against the limits of the worker.
use rust_events.Base.{
  ℕ, ◌≤◌, ◌≡◌, sym, subst, ◌∙◌, Bool-cases, Option-cases, inl, inr, some, List, [], ◌∷◌, Str,
  str_eq, ok, All, lookup, arith,
}
use rust_events.Registry.{Registry, RegisteredHandler, find_handler}
use rust_events.Builder.Config.{OutboxConfig}
use rust_events.Builder.Registration.{find_pending, IsEntry, IsLimit}
use rust_events.Builder.Built.{build_succeeds_iff, build_lookups}
use rust_events.Builder.{OutboxBuilder, Outbox, PendingHandler, i32_max, build}
use rust_events.Dispatch.{envelope_for}
use rust_events.Start.Worker.{concurrency_limits}

find_pending-IsLimit :
    {M : Type 0} (global : ℕ) (id : Str) (es : List (PendingHandler M)) {h : RegisteredHandler M}
    → All (IsEntry global) es
    → find_pending id es ≡ some h
    → IsLimit h.concurrency_limit
find_pending-IsLimit global id [] v e = absurd (ground (arith, e))
find_pending-IsLimit global id (x ∷ es) {h} v e = elim (Bool-cases (str_eq x.handler_id id)) [
  | inl this ↦ subst IsLimit (ground (arith, e, this)) v.0.3
  | inr other ↦ find_pending-IsLimit global id es v.1 (rw other at e)
]

lookup-concurrency_limits :
    {M : Type 0} (id : Str) (hs : List (Str × RegisteredHandler M)) (h : RegisteredHandler M)
    (n : ℕ)
    → lookup id hs ≡ some h
    → h.concurrency_limit ≡ some n
    → lookup id (concurrency_limits hs) ≡ some n
unfolding concurrency_limits
lookup-concurrency_limits id [] h n e l = absurd (ground (arith, e))
lookup-concurrency_limits id ((j, x) ∷ hs) h n e l =
    ground (arith, e, l, lookup-concurrency_limits id hs h n)

envelope_for_key :
    {M : Type 0} (r : Registry M) (event_id : ℕ) (id key : Str)
    → (envelope_for r event_id id).1 ≡ some key
    → (h : RegisteredHandler M) × (n : ℕ) × (find_handler r id ≡ some h)
      × (h.concurrency_limit ≡ some n)
      × (key ≡ id)
unfolding envelope_for
envelope_for_key r event_id id key e = elim (Option-cases (find_handler r id)) [
  | inl missing ↦ absurd (ground (arith, e, missing))
  | inr (h, found) ↦ elim (Option-cases h.concurrency_limit) [
    | inl free ↦ absurd (ground (arith, e, found, free))
    | inr (n, limited) ↦ (h, n, found, limited, ground (arith, e, found, limited))
  ]
]

-- Every job that `dispatch` pushes with a concurrency key is pushed under its handler's id, and the
-- worker that `start` builds has a limit for that key, between 1 and 2147483647.
pub keyed_job_has_limit :
    {B M : Type 0} (fallback : OutboxConfig B) (b : OutboxBuilder B M) (o : Outbox B M)
    (event_id : ℕ) (id key : Str)
    → build fallback b ≡ ok o
    → (envelope_for o.registry event_id id).1 ≡ some key
    → (key ≡ id)
      × ((n : ℕ) × (lookup key (concurrency_limits o.registry.handlers) ≡ some n)
          × (1 ≤ n)
          × (n ≤ i32_max))
unfolding find_handler
keyed_job_has_limit fallback b o event_id id key built keyed =
    let (h, n, found, limited, same) = envelope_for_key o.registry event_id id key keyed in
    let (entries, _) = (build_succeeds_iff fallback b).0 (o, built) in
    let pending = sym (build_lookups fallback b id id built).0 ∙ found in
    let within = find_pending-IsLimit _ id b.pending entries pending in
    let (low, high) : IsLimit (some n) = subst IsLimit limited within in
    let held = lookup-concurrency_limits id o.registry.handlers h n found limited in
    (
      same,
      (
        n,
        subst (λ k. lookup k (concurrency_limits o.registry.handlers) ≡ some n) (sym same) held,
        low,
        high,
      ),
    )
