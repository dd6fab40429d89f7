-- ===== src/Util/Sanitize.antt =====
-- The laws of `sanitize_reason`.
use rust_events.Base.{◌≤◌, ◌≡◌, refl, false, [], ◌∷◌, Str, len, length, All, arith}
use rust_events.Util.{is_control, sanitize_reason}

-- No control character is left.
abbrev pub IsClean : Str → Type 0
IsClean = All (λ c. is_control c ≡ false)

pub sanitize_reason-IsClean : (s : Str) → IsClean (sanitize_reason s)
unfolding sanitize_reason
sanitize_reason-IsClean [] = tt
sanitize_reason-IsClean (c ∷ s) = (ground arith, sanitize_reason-IsClean s)

pub sanitize_reason_of_IsClean : (s : Str) → IsClean s → sanitize_reason s ≡ s
unfolding sanitize_reason
sanitize_reason_of_IsClean [] h = refl
sanitize_reason_of_IsClean (c ∷ s) h = ground (arith, sanitize_reason_of_IsClean s h.1)

pub length-sanitize_reason : (s : Str) → length (sanitize_reason s) ≡ length s
unfolding sanitize_reason
length-sanitize_reason [] = refl
length-sanitize_reason (c ∷ s) = omega (arith, length-sanitize_reason s)

-- A control from U+0080 on takes two bytes and its `?` one, so the byte length may fall.
pub len-sanitize_reason-le : (s : Str) → len (sanitize_reason s) ≤ len s
unfolding sanitize_reason
len-sanitize_reason-le [] = omega arith
len-sanitize_reason-le (c ∷ s) = ground (arith, len-sanitize_reason-le s)
