-- ===== src/Handler.antt =====
-- src/handler.rs, src/registry.rs (the erased handler) and src/envelope.rs: events, handlers and
-- what one invocation gives. An event type is a record of its name, its aggregate key and its
-- serde codec, which is not this library's code and so a field. `M` is `serde_json::Map`.
-- A duration is a number of nanoseconds, an instant a number of nanoseconds from a fixed epoch.
use rust_events.Base.{
  ℕ, ◌-◌, ◌*◌, Option, none, some, List, ◌++◌, Str, str, Result, ok, err, leb, if◌then◌else◌,
}
use rust_events.Util.{PanicPayload}

abbrev pub ms : ℕ → ℕ
ms n = n * 1_000_000

abbrev pub secs : ℕ → ℕ
secs n = ms (n * 1000)

abbrev pub Bytes : Type 0
Bytes = List ℕ

-- `to_vec` and `from_slice` are serde_json's for this type; their errors are the texts they show.
pub record DomainEvent : Type 1 where
  pub Event : Type 0
  pub event_type : Str
  pub aggregate_key : Event → Option Str
  pub to_vec : Event → Result Bytes Str
  pub from_slice : Bytes → Result Event Str

pub data HandlerError : Type 0 where
  retry_error : Str → Option ℕ → HandlerError
  skip_error : Str → HandlerError
  abort_error : Str → HandlerError

unfoldable pub retry : Str → HandlerError
retry reason = retry_error reason none

unfoldable pub retry_in : Str → ℕ → HandlerError
retry_in reason delay = retry_error reason (some delay)

-- `now` is the clock's reading; a moment that is past gives `Duration::ZERO`.
unfoldable pub retry_at : ℕ → Str → ℕ → HandlerError
retry_at now reason when = retry_error reason (some (if leb now when then when - now else 0))

unfoldable pub skip : Str → HandlerError
skip reason = skip_error reason

unfoldable pub abort : Str → HandlerError
abort reason = abort_error reason

pub record HandlerContext (M : Type 0) : Type 0 where
  pub event_id : ℕ
  pub tenant_id : Str
  pub producer_bc : Str
  pub attempt : ℕ
  pub max_attempts : ℕ
  pub delivery_key : ℕ
  pub dispatch_idempotency_key : Option Str
  pub headers : M

-- A future, by what happens when it is awaited: it returns or panics in one of its polls, or every
-- poll leaves it pending.
pub data Ending (A : Type 0) : Type 0 where
  returned : A → Ending A
  panicked : PanicPayload → Ending A
  pending : Ending A

pub record Async (A : Type 0) : Type 0 where
  -- When the last poll that leaves it pending is over, from the first poll on; 0 if the first poll
  -- ends it. A future that blocks its thread is in one poll all the time, and does not yield.
  pub last_yield : ℕ
  pub ending : Ending A

-- `EventHandler::handle` of a handler for the event type.
abbrev pub EventHandler : Type 0 → DomainEvent → Type 0
EventHandler M e = e.Event → HandlerContext M → Async (Result (Unit {0}) HandlerError)

pub data HandlerOutcome : Type 0 where
  done : HandlerOutcome
  handler_error : HandlerError → HandlerOutcome
  decode_failed : Str → HandlerOutcome

abbrev pub ErasedHandler : Type 0 → Type 0
ErasedHandler M = Bytes → HandlerContext M → Async HandlerOutcome

abbrev outcome_of : Result (Unit {0}) HandlerError → HandlerOutcome
outcome_of (ok _) = done
outcome_of (err e) = handler_error e

abbrev map_ending : {A B : Type 0} → (A → B) → Ending A → Ending B
map_ending f (returned a) = returned (f a)
map_ending f (panicked p) = panicked p
map_ending f pending = pending

-- The mapping of the inner handler's result.
abbrev pub erase_run : Async (Result (Unit {0}) HandlerError) → Async HandlerOutcome
erase_run run = record { last_yield = run.last_yield; ending = map_ending outcome_of run.ending }

-- `TypedHandler::handle_erased`
unfoldable pub handle_erased : {M : Type 0} (e : DomainEvent) → EventHandler M e → ErasedHandler M
handle_erased e inner payload ctx = elim (e.from_slice payload) [
  | err text ↦ record {
    last_yield = 0;
    ending = returned (decode_failed (str "decode " ++ e.event_type ++ str ": " ++ text));
  }
  | ok event ↦ erase_run (inner event ctx)
]

-- src/envelope.rs: the payload of a job.
pub record HandlerEnvelope : Type 0 where
  pub event_id : ℕ
  pub handler_id : Str
