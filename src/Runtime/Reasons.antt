-- ===== src/Runtime/Reasons.antt =====
-- The texts that a failed job leaves in the database and gives to the queue.
use rust_events.Base.{◌≤◌, refl, subst, [], ◌∷◌, ◌++◌, Str, len, arith}
use rust_events.Util.{sanitize_reason, truncate_utf8}
use rust_events.Util.Sanitize.{IsClean, sanitize_reason-IsClean}
use rust_events.Util.Truncate.{truncate_utf8_longest}
use rust_events.Runtime.Marks.{stored_reason}

IsClean-prefix : (u v : Str) → IsClean (u ++ v) → IsClean u
IsClean-prefix [] v h = tt
IsClean-prefix (c ∷ u) v h = (h.0, IsClean-prefix u v h.1)

-- What is stored for a reason has no control character and at most 8192 bytes.
pub stored_reason_safe :
    (reason : Str) → IsClean (stored_reason reason) × (len (stored_reason reason) ≤ 8192)
unfolding stored_reason
stored_reason_safe reason =
    let clean = sanitize_reason reason in
    let (short, (rest, e), _) = truncate_utf8_longest clean 8192 [] clean refl (omega arith) in
    (
      IsClean-prefix (truncate_utf8 clean 8192) rest
          (subst IsClean e (sanitize_reason-IsClean reason)),
      short,
    )
