-- ===== src/System/Reachable.antt =====
-- What holds of every database that the library can reach.
use rust_events.Base.{ℕ}
use rust_events.Builder.{Outbox}
use rust_events.Schema.{Db}
use rust_events.Dispatch.Transaction.{Pusher, Json}
use rust_events.Runtime.{OutboxRuntime}
use rust_events.Runtime.Statements.{over_cases}
use rust_events.Purge.Statements.{delete_terminal_deliveries, delete_dispatch_keys, delete_events}
use rust_events.System.Sound.{IsWellFormed, IsSound-mono}
use rust_events.System.Dispatches.{Transacts-IsSound}
use rust_events.System.Workers.{Step-IsWellFormed}
use rust_events.System.Purges.{
  delete_terminal_deliveries-IsWellFormed, delete_dispatch_keys-IsWellFormed,
  delete_events-IsWellFormed,
}
use rust_events.System.{
  SystemStep, SystemRuns, commits, works, purges_deliveries, purges_keys, purges_events, rests,
  steps,
}

module _ {B M : Type 0} (p : Pusher) (json : Json M) (outbox : Outbox B M)
    (rt : OutboxRuntime B M) where
  pub SystemStep-IsWellFormed :
      (t u : ℕ) (db db' : Db M)
      → SystemStep p json outbox rt t db u db'
      → IsWellFormed t db
      → IsWellFormed u db'
  SystemStep-IsWellFormed t u db db' (commits _ now _ tx tx' runs le later live refer) w = record {
    sound = Transacts-IsSound p json outbox now u tx tx' later runs (IsSound-mono db le w.sound);
    keys_referring = refer;
  }
  SystemStep-IsWellFormed t u db db' (works _ _ _ _ s) w = Step-IsWellFormed rt t u db db' s w
  SystemStep-IsWellFormed t u db db' (purges_deliveries _ cutoff wire _) w =
      over_cases (IsWellFormed t) wire (delete_terminal_deliveries cutoff) db w
        (delete_terminal_deliveries-IsWellFormed t cutoff db w)
  SystemStep-IsWellFormed t u db db' (purges_keys _ cutoff wire _) w =
      over_cases (IsWellFormed t) wire (delete_dispatch_keys cutoff) db w
        (delete_dispatch_keys-IsWellFormed t cutoff db w)
  SystemStep-IsWellFormed t u db db' (purges_events _ cutoff wire _) w =
      over_cases (IsWellFormed t) wire (delete_events cutoff) db w
        (delete_events-IsWellFormed t cutoff db w)

  -- Whatever dispatches commit, whatever claims, verdicts and statements of the purges follow, in any
  -- order and with any calls lost, well-formed tables stay so: the deliveries pass their CHECKs, their
  -- ids are distinct and below the next one, no event has two deliveries to one handler, every
  -- delivery and every key has its event, and no event and no tenant's key occurs twice.
  pub system-IsWellFormed :
      (t u : ℕ) (db db' : Db M)
      → SystemRuns p json outbox rt t db u db'
      → IsWellFormed t db
      → IsWellFormed u db'
  system-IsWellFormed t u db db' (rests _ _) w = w
  system-IsWellFormed t u db db' (steps _ v _ _ mid _ s runs) w =
      system-IsWellFormed v u mid db' runs (SystemStep-IsWellFormed t v db mid s w)
