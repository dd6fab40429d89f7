-- ===== src/System/Outlook.antt =====
-- The library in the abstract: for every event and every handler, whether the delivery is absent, due
-- or closed. Rows, attempts, leases, times, keys and jobs are forgotten.
use rust_events.Base.{
  ℕ, ◌≡◌, ◌⊎◌, refl, sym, ap, ◌∙◌, Bool, ◌&&◌, inl, inr, Bool-cases, List, Str, str_eq, str_eq_iff,
  any, any-delete_where, delete_where, ◌==◌, arith,
}
use rust_events.Builder.{Outbox}
use rust_events.Schema.{Db, Delivery, is_delivery}
use rust_events.Schema.Status.{is_terminal}
use rust_events.Dispatch.Transaction.{Pusher, Json}
use rust_events.Runtime.{OutboxRuntime}
use rust_events.Runtime.Statements.{over_cases}
use rust_events.Runtime.Evolution.{AllEvolve, AllEvolve-refl, claim-Later, settle-Later}
use rust_events.Runtime.Traces.{Step, claims, settles}
use rust_events.Purge.Statements.{delete_terminal_deliveries, delete_dispatch_keys, delete_events}
use rust_events.Purge.Safety.{pending, delete_events-pending, delete_terminal_deliveries-pending}
use rust_events.System.Sound.{IsWellFormed, IsSound-HasKey, IsWellFormed-HasReferences}
use rust_events.System.Phases.{
  Phase, absent, due, closed, is_due, phase_of, is_due-pending, others_phase, own_phase,
}
use rust_events.System.Publishes.{Transacts-AddsQueued, AddsQueued-phase_of}
use rust_events.System.Reachable.{SystemStep-IsWellFormed}
use rust_events.System.{
  SystemStep, SystemRuns, commits, works, purges_deliveries, purges_keys, purges_events, rests,
  steps,
}

abbrev pub Outlook : Type 0
Outlook = ℕ → Str → Phase

-- What a step is in the abstract.
pub data Event : Type 0 where
  publishes forgets idles : Event
  delivers : (event_id : ℕ) (handler_id : Str) → Event

-- What may happen: a publication makes absent deliveries due, a worker closes at most the one due
-- delivery that its job names, a purge forgets closed ones. Nothing goes back, and nothing due is
-- forgotten.
abbrev pub IsAllowed : Event → Outlook → Outlook → Type 0
IsAllowed publishes f g = (e : ℕ) (h : Str) → (g e h ≡ f e h) ⊎ ((f e h ≡ absent) × (g e h ≡ due))
IsAllowed (delivers event_id handler_id) f g =
    (e : ℕ) (h : Str)
    → (g e h ≡ f e h) ⊎ ((e ≡ event_id) × (h ≡ handler_id) × (f e h ≡ due) × (g e h ≡ closed))
IsAllowed forgets f g = (e : ℕ) (h : Str) → (g e h ≡ f e h) ⊎ ((f e h ≡ closed) × (g e h ≡ absent))
IsAllowed idles f g = (e : ℕ) (h : Str) → g e h ≡ f e h

abbrev pub outlook : {M : Type 0} → Db M → Outlook
outlook db e h = phase_of e h db.deliveries

-- A worker writes to the delivery its job names.
AllEvolve-IsAllowed :
    (event_id : ℕ) (handler_id : Str) (ds es : List Delivery)
    → AllEvolve event_id handler_id ds es
    → IsAllowed (delivers event_id handler_id) (λ e h. phase_of e h ds) (λ e h. phase_of e h es)
AllEvolve-IsAllowed event_id handler_id ds es k = named
  where
    named :
        (e : ℕ) (h : Str)
        → (phase_of e h es ≡ phase_of e h ds)
          ⊎ ((e ≡ event_id)
              × (h ≡ handler_id)
              × (phase_of e h ds ≡ due)
              × (phase_of e h es ≡ closed))
    named e h = elim (Bool-cases (e == event_id && str_eq h handler_id)) [
      | inr other ↦ inl (ground (arith, others_phase e h event_id handler_id ds es other k))
      | inl this ↦
          let same_event : e ≡ event_id = ground arith in
          let same_handler : h ≡ handler_id = ground (arith, str_eq_iff h handler_id) in
          ground
            (arith, same_event, same_handler, own_phase e h ds es (rw (same_event, same_handler) k))
    ]

-- A DELETE that leaves the pending deliveries.
deleted-IsAllowed :
    (hit : Delivery → Bool) (ds : List Delivery)
    → pending (delete_where hit ds) ≡ pending ds
    → IsAllowed forgets (λ e h. phase_of e h ds) (λ e h. phase_of e h (delete_where hit ds))
deleted-IsAllowed hit ds kept = λ e h.
    let es = delete_where hit ds in
    let same_due : is_due e h es ≡ is_due e h ds =
      sym (is_due-pending e h es) ∙ ap (any (is_delivery e h)) kept ∙ is_due-pending e h ds in
    ground
      (arith, same_due, any-delete_where (λ d. is_delivery e h d && is_terminal d.status) hit ds)

module _ {M : Type 0} (db : Db M) where
  abbrev Follows : Db M → Type 0
  Follows db' = IsAllowed forgets (outlook db) (outlook db')

  same_outlook : Follows db
  same_outlook = λ e h. inl refl

  delete_terminal_deliveries-Follows :
      (cutoff t : ℕ) → IsWellFormed t db → Follows (delete_terminal_deliveries cutoff db).1
  delete_terminal_deliveries-Follows cutoff t w =
      let kept = delete_terminal_deliveries-pending cutoff db (IsSound-HasKey db w.sound) in
      unfold delete_terminal_deliveries in deleted-IsAllowed _ db.deliveries kept

  delete_events-Follows : (cutoff t : ℕ) → IsWellFormed t db → Follows (delete_events cutoff db).1
  delete_events-Follows cutoff t w =
      let kept = delete_events-pending cutoff db (IsWellFormed-HasReferences db w) in
      unfold delete_events in deleted-IsAllowed _ db.deliveries kept

module _ {B M : Type 0} (rt : OutboxRuntime B M) where
  abbrev pub event_of_worker : {t u : ℕ} {db db' : Db M} → Step rt t db u db' → Event
  event_of_worker (claims io env ctx _ _ _) = delivers env.event_id env.handler_id
  event_of_worker (settles io env ctx result _ _ _) = delivers env.event_id env.handler_id

  Step-IsAllowed :
      (t u : ℕ) (db db' : Db M) (s : Step rt t db u db')
      → IsAllowed (event_of_worker s) (outlook db) (outlook db')
  Step-IsAllowed t u db db' (claims io env ctx _ _ le) =
      AllEvolve-IsAllowed env.event_id env.handler_id db.deliveries _ (claim-Later io env ctx rt db)
  Step-IsAllowed t u db db' (settles io env ctx result _ _ le) =
      AllEvolve-IsAllowed env.event_id env.handler_id db.deliveries _ (
        settle-Later io env ctx rt db db result
          (AllEvolve-refl env.event_id env.handler_id db.deliveries))

module _ {B M : Type 0} (p : Pusher) (json : Json M) (outbox : Outbox B M)
    (rt : OutboxRuntime B M) where
  abbrev pub event_of : {t u : ℕ} {db db' : Db M} → SystemStep p json outbox rt t db u db' → Event
  event_of (commits _ _ _ _ _ _ _ _ _ _) = publishes
  event_of (works _ _ _ _ s) = event_of_worker rt s
  event_of (purges_deliveries _ _ _ _) = forgets
  event_of (purges_keys _ _ _ _) = idles
  event_of (purges_events _ _ _ _) = forgets

  -- Every step of the run does to the outlook what the abstract view allows it.
  abbrev pub FollowsOutlook :
      {t u : ℕ} {db db' : Db M} → SystemRuns p json outbox rt t db u db' → Type 0
  FollowsOutlook (rests _ _) = Unit
  FollowsOutlook (steps _ _ _ db mid _ s runs) =
      IsAllowed (event_of s) (outlook db) (outlook mid) × FollowsOutlook runs

  SystemStep-IsAllowed :
      (t u : ℕ) (db db' : Db M) (s : SystemStep p json outbox rt t db u db')
      → IsWellFormed t db
      → IsAllowed (event_of s) (outlook db) (outlook db')
  SystemStep-IsAllowed t u db db' (commits _ now _ tx tx' runs le later live refer) w =
      let w' =
        SystemStep-IsWellFormed p json outbox rt t u db db'
          (commits t now u tx tx' runs le later live refer) w in
      let added = Transacts-AddsQueued p json outbox now tx tx' runs in
      λ e h.
        AddsQueued-phase_of e h db.deliveries db'.deliveries added w'.sound.deliveries.rows_distinct
  SystemStep-IsAllowed t u db db' (works _ _ _ _ s) w = Step-IsAllowed rt t u db db' s
  SystemStep-IsAllowed t u db db' (purges_deliveries _ cutoff wire _) w =
      over_cases (Follows db) wire (delete_terminal_deliveries cutoff) db (same_outlook db)
        (delete_terminal_deliveries-Follows db cutoff t w)
  SystemStep-IsAllowed t u db db' (purges_keys _ cutoff wire _) w =
      over_cases (λ s. IsAllowed idles (outlook db) (outlook s)) wire (delete_dispatch_keys cutoff)
        db (λ e h. refl) (unfold delete_dispatch_keys in λ e h. refl)
  SystemStep-IsAllowed t u db db' (purges_events _ cutoff wire _) w =
      over_cases (Follows db) wire (delete_events cutoff) db (same_outlook db)
        (delete_events-Follows db cutoff t w)

  -- Seen as the phases of the deliveries, every step of a run does only what the abstract view
  -- allows it: from well-formed tables, with calls lost and leases stale, a committed transaction
  -- only makes absent deliveries due, a claim or a verdict closes at most the one due delivery that
  -- its job names, purge_terminal_deliveries and purge_events only forget closed deliveries, and
  -- purge_dispatch_keys changes none.
  pub system_refines_outlook :
      (t u : ℕ) (db db' : Db M) (runs : SystemRuns p json outbox rt t db u db')
      → IsWellFormed t db
      → FollowsOutlook runs
  system_refines_outlook t u db db' (rests _ _) w = tt
  system_refines_outlook t u db db' (steps _ v _ _ mid _ s runs) w = (
    SystemStep-IsAllowed t v db mid s w,
    system_refines_outlook v u mid db' runs
        (SystemStep-IsWellFormed p json outbox rt t v db mid s w),
  )
