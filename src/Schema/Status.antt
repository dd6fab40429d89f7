-- ===== src/Schema/Status.antt =====
-- `DeliveryStatus` of src/history.rs, which is the enum `outbox.delivery_status` of the schema.
use rust_events.Base.{Bool, true, false, List, [], ◌∷◌, Str, str}

pub data DeliveryStatus : Type 0 where
  queued running awaiting_retry sent skipped dead : DeliveryStatus

unfoldable pub as_str : DeliveryStatus → Str
as_str queued = str "queued"
as_str running = str "running"
as_str awaiting_retry = str "awaiting_retry"
as_str sent = str "sent"
as_str skipped = str "skipped"
as_str dead = str "dead"

-- `DeliveryStatus::ALL`
abbrev pub all_statuses : List DeliveryStatus
all_statuses = queued ∷ running ∷ awaiting_retry ∷ sent ∷ skipped ∷ dead ∷ []

-- `status IN ('sent','dead','skipped')`
abbrev pub is_terminal : DeliveryStatus → Bool
is_terminal sent = true
is_terminal skipped = true
is_terminal dead = true
is_terminal _ = false

-- `status IN ('queued','running','awaiting_retry')`
abbrev pub is_active : DeliveryStatus → Bool
is_active queued = true
is_active running = true
is_active awaiting_retry = true
is_active _ = false

-- `status = 'queued'`, and so on.
abbrev pub is_queued : DeliveryStatus → Bool
is_queued queued = true
is_queued _ = false

abbrev pub is_running : DeliveryStatus → Bool
is_running running = true
is_running _ = false

abbrev pub is_awaiting_retry : DeliveryStatus → Bool
is_awaiting_retry awaiting_retry = true
is_awaiting_retry _ = false
