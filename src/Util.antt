-- ===== src/Util.antt =====
-- src/util.rs: what is done to the texts and the errors that reach the database and the logs.
-- A text is a list of code points. `sqlx::Error` is the enumeration that the code matches on; the
-- text inside a variant stands for what the driver or the server puts there.
pub mod Sanitize
pub mod Truncate
use rust_events.Base.{
  ℕ, zero, suc, ◌-◌, Bool, true, false, ◌&&◌, ◌||◌, Option, none, some, List, [], ◌∷◌, ◌++◌, map,
  Str, str, len, len_utf8, starts_with, ltb, leb, ◌==◌, if◌then◌else◌,
}

-- `char::is_control`: the Unicode category Cc, which is U+0000 to U+001F and U+007F to U+009F.
unfoldable pub is_control : ℕ → Bool
is_control c = ltb c 0x20 || (leb 0x7f c && leb c 0x9f)

abbrev mask : ℕ → ℕ
mask c = if is_control c then b'?' else c

unfoldable pub sanitize_reason : Str → Str
unfolding is_control
sanitize_reason s = map mask s

-- `str::is_char_boundary`
unfoldable pub is_char_boundary : Str → ℕ → Bool
is_char_boundary [] i = i == 0
is_char_boundary (c ∷ s) i = i == 0 || (leb (len_utf8 c) i && is_char_boundary s (i - len_utf8 c))

-- `&s[..end]` at a character boundary.
unfoldable pub slice_to : Str → ℕ → Str
slice_to [] end = []
slice_to (c ∷ s) end = if leb (len_utf8 c) end then c ∷ slice_to s (end - len_utf8 c) else []

-- The `while` loop of `truncate_utf8`: `end` falls to the next boundary below.
unfoldable pub seek_boundary : Str → ℕ → ℕ
seek_boundary s zero = 0
seek_boundary s (suc end) =
    let lower = seek_boundary s end in if is_char_boundary s (suc end) then suc end else lower

unfoldable pub truncate_utf8 : Str → ℕ → Str
unfolding is_char_boundary slice_to seek_boundary
truncate_utf8 s max = if leb (len s) max then s else slice_to s (seek_boundary s max)

pub data SqlxError : Type 0 where
  -- The SQLSTATE, if the server gave one, and the server's message with its DETAIL line.
  database : Option Str → Str → SqlxError
  io tls configuration protocol encode decode : Str → SqlxError
  type_not_found column_decode : Str → SqlxError
  pool_timed_out pool_closed row_not_found : SqlxError
  -- Every other variant.
  other : Str → SqlxError

unfoldable pub is_pg_constraint_violation : SqlxError → Bool
is_pg_constraint_violation (database (some code) _) = starts_with code (str "23")
is_pg_constraint_violation (database none _) = false
is_pg_constraint_violation _ = false

unfoldable pub is_sqlx_deterministic : SqlxError → Bool
is_sqlx_deterministic (database (some c) _) =
    starts_with c (str "0A")
    || starts_with c (str "22")
    || starts_with c (str "23")
    || starts_with c (str "25")
    || starts_with c (str "28")
    || starts_with c (str "3F")
    || starts_with c (str "42")
    || starts_with c (str "44")
is_sqlx_deterministic (database none _) = false
is_sqlx_deterministic (protocol _) = true
is_sqlx_deterministic (type_not_found _) = true
is_sqlx_deterministic (column_decode _) = true
is_sqlx_deterministic (encode _) = true
is_sqlx_deterministic (decode _) = true
is_sqlx_deterministic (configuration _) = true
is_sqlx_deterministic _ = false

unfoldable pub redact_db_error : SqlxError → Str
redact_db_error (database (some code) _) = str "db_error code=" ++ code
redact_db_error (database none _) = str "db_error code=unknown"
redact_db_error (io _) = str "db_error kind=io"
redact_db_error pool_timed_out = str "db_error kind=pool_timed_out"
redact_db_error pool_closed = str "db_error kind=pool_closed"
redact_db_error row_not_found = str "db_error kind=row_not_found"
redact_db_error (tls _) = str "db_error kind=tls"
redact_db_error (configuration _) = str "db_error kind=configuration"
redact_db_error _ = str "db_error kind=other"

-- `Box<dyn Any + Send>`, as far as `downcast_ref` tells it.
pub data PanicPayload : Type 0 where
  static_str : Str → PanicPayload
  string : Str → PanicPayload
  other_type : PanicPayload

unfoldable pub panic_payload_message : PanicPayload → Str
panic_payload_message (static_str s) = s
panic_payload_message (string s) = s
panic_payload_message other_type = str "panic with non-string payload"

-- `serde_json::Value`; `M` is `serde_json::Map`, and `non_object` any value that is no object.
pub data JsonValue (M : Type 0) : Type 0 where
  object : M → JsonValue M
  non_object : JsonValue M

-- `empty` is `serde_json::Map::new()`.
unfoldable pub parse_headers : {M : Type 0} → M → JsonValue M → M
parse_headers empty (object m) = m
parse_headers empty non_object = empty
