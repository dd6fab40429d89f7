-- ===== src/Limits.antt =====
-- src/limits.rs: the bounds that are checked in Rust and once more by the schema, in bytes.
use rust_events.Base.{ℕ, ◌*◌}

abbrev pub max_event_type_bytes : ℕ
max_event_type_bytes = 128

abbrev pub max_handler_id_bytes : ℕ
max_handler_id_bytes = 128

abbrev pub max_tenant_bytes : ℕ
max_tenant_bytes = 64

abbrev pub max_bc_bytes : ℕ
max_bc_bytes = 64

abbrev pub max_idempotency_key_bytes : ℕ
max_idempotency_key_bytes = 128

abbrev pub max_aggregate_key_bytes : ℕ
max_aggregate_key_bytes = 128

abbrev pub max_payload_bytes : ℕ
max_payload_bytes = 1_048_576

abbrev pub max_headers_bytes : ℕ
max_headers_bytes = 16 * 1024

abbrev pub max_last_error_bytes : ℕ
max_last_error_bytes = 8192

abbrev pub purge_chunk_size : ℕ
purge_chunk_size = 10_000
