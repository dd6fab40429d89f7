-- ===== src/Runtime/Timing.antt =====
-- The handler's own timeout against the one of the queue's worker, which is
-- `config.handler_timeout` and cuts the whole of `handle_envelope`.
use rust_events.Base.{
  ℕ, ◌≤◌, ◌<◌, ◌+◌, ◌≡◌, sym, subst, ◌∙◌, Option, none, some, List, [], ◌∷◌, Str, str_eq, ok, All,
  get_or, Bool-cases, inl, inr, arith,
}
use rust_events.Handler.{ms}
use rust_events.Registry.{RegisteredHandler, find_handler}
use rust_events.Builder.Config.{OutboxConfig, build_config}
use rust_events.Builder.ConfigBounds.{build_config_iff}
use rust_events.Builder.Registration.{find_pending, IsEntry, IsTimeout}
use rust_events.Builder.Built.{build_succeeds_iff, build_lookups}
use rust_events.Builder.{OutboxBuilder, Outbox, PendingHandler, build}
use rust_events.Runtime.Invoke.{our_timeout}

find_pending-IsTimeout :
    {M : Type 0} (global : ℕ) (id : Str) (es : List (PendingHandler M)) {h : RegisteredHandler M}
    → All (IsEntry global) es
    → find_pending id es ≡ some h
    → IsTimeout global h.handler_timeout
find_pending-IsTimeout global id [] v e = absurd (ground (arith, e))
find_pending-IsTimeout global id (x ∷ es) {h} v e = elim (Bool-cases (str_eq x.handler_id id)) [
  | inl this ↦ subst (IsTimeout global) (ground (arith, e, this)) v.0.2
  | inr other ↦ find_pending-IsTimeout global id es v.1 (rw other at e)
]

our_timeout_lem :
    (global : ℕ) (t : Option ℕ)
    → ms 400 < global
    → IsTimeout global t
    → (our_timeout global t + ms 200 ≡ get_or t global)
      × (our_timeout global t + ms 200 ≤ global)
      × (ms 200 < our_timeout global t)
unfolding our_timeout
our_timeout_lem global none g h = ground arith
our_timeout_lem global (some t) g h = ground arith

-- In an outbox built over an accepted configuration, the time that a registered handler is given and
-- the clean-up budget of 200 ms make up the handler's timeout, its override or else the global one.
-- Together they are within the timeout of the queue's worker, so that a handler that is timed out
-- leaves 200 ms for the row's mark; and the handler itself has more than 200 ms.
pub our_timeout_fits :
    {B M : Type 0} (cfg fallback : OutboxConfig B) (b : OutboxBuilder B M) (o : Outbox B M)
    (id : Str) (h : RegisteredHandler M)
    → build_config cfg ≡ ok cfg
    → b.config ≡ some cfg
    → build fallback b ≡ ok o
    → find_handler o.registry id ≡ some h
    → let limit = our_timeout cfg.handler_timeout h.handler_timeout in
      (limit + ms 200 ≡ get_or h.handler_timeout cfg.handler_timeout)
      × (limit + ms 200 ≤ cfg.handler_timeout)
      × (ms 200 < limit)
our_timeout_fits cfg fallback b o id h accepted configured built found =
    let (_, _, _, floor) = (build_config_iff cfg).0 accepted in
    let (entries, _) = (build_succeeds_iff fallback b).0 (o, built) in
    let pending = sym (build_lookups fallback b id id built).0 ∙ found in
    our_timeout_lem cfg.handler_timeout h.handler_timeout floor
      (find_pending-IsTimeout cfg.handler_timeout id b.pending (rw configured at entries) pending)
