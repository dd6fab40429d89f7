-- ===== src/Util/Truncate.antt =====
-- The laws of `truncate_utf8`.
use rust_events.Base.{
  ℕ, zero, suc, ◌≤◌, ◌-◌, ◌≡◌, refl, sym, ap, true, false, inl, inr, [], ◌∷◌, ◌++◌, length-append,
  Str, len, len_utf8, length, leb, arith, Bool-cases,
}
use mathlib.Core.List.{append-nil}
use rust_events.Util.{is_char_boundary, slice_to, seek_boundary, truncate_utf8}

sub-suc : (i w : ℕ) → w ≤ i → suc i - w ≡ suc (i - w)
sub-suc i w h = omega arith

is_char_boundary-zero : (s : Str) → is_char_boundary s 0 ≡ true
unfolding is_char_boundary
is_char_boundary-zero [] = refl
is_char_boundary-zero (c ∷ s) = refl

-- A position inside a character cuts where the boundary below it does.
slice_to-suc :
    (s : Str) (i : ℕ) → is_char_boundary s (suc i) ≡ false → slice_to s (suc i) ≡ slice_to s i
unfolding is_char_boundary slice_to
slice_to-suc [] i h = refl
slice_to-suc (c ∷ s) i h =
    ground (arith, is_char_boundary-zero s, slice_to-suc s (i - len_utf8 c), sub-suc i (len_utf8 c))

slice_to-seek_boundary : (s : Str) (n : ℕ) → slice_to s (seek_boundary s n) ≡ slice_to s n
unfolding seek_boundary
slice_to-seek_boundary s zero = refl
slice_to-seek_boundary s (suc n) = elim (Bool-cases (is_char_boundary s (suc n))) [
  | inl at ↦ rw at
  | inr inside ↦ rw inside (ground (arith, slice_to-seek_boundary s n, slice_to-suc s n inside))
]

-- The loop stops at a boundary, so the slice does not panic.
pub seek_boundary_lem : (s : Str) (n : ℕ) → is_char_boundary s (seek_boundary s n) ≡ true
unfolding seek_boundary
seek_boundary_lem s zero = is_char_boundary-zero s
seek_boundary_lem s (suc n) = elim (Bool-cases (is_char_boundary s (suc n))) [
  | inl at ↦ rw at at
  | inr inside ↦ rw inside (seek_boundary_lem s n)
]

len-slice_to-le : (s : Str) (n : ℕ) → len (slice_to s n) ≤ n
unfolding slice_to
len-slice_to-le [] n = omega arith
len-slice_to-le (c ∷ s) n = ground (arith, len-slice_to-le s (n - len_utf8 c))

slice_to_prefix : (s : Str) (n : ℕ) → (rest : Str) × (s ≡ slice_to s n ++ rest)
unfolding slice_to
slice_to_prefix [] n = ([], refl)
slice_to_prefix (c ∷ s) n =
    let (rest, e) = slice_to_prefix s (n - len_utf8 c) in
    elim (Bool-cases (leb (len_utf8 c) n)) [
      | inl fits ↦ (rest, rw fits (ap (◌∷◌ c) e))
      | inr past ↦ (c ∷ s, rw past)
    ]

-- No longer prefix fits.
slice_to_longest : (u v : Str) (n : ℕ) → len u ≤ n → length u ≤ length (slice_to (u ++ v) n)
unfolding slice_to
slice_to_longest [] v n h = omega arith
slice_to_longest (c ∷ u) v n h = ground (arith, slice_to_longest u v (n - len_utf8 c))

-- `truncate_utf8 s max` is a prefix of `s` of at most `max` bytes, and no prefix `u` of `s` of at
-- most `max` bytes has more characters.
pub truncate_utf8_longest :
    (s : Str) (max : ℕ) (u v : Str)
    → s ≡ u ++ v
    → len u ≤ max
    → (len (truncate_utf8 s max) ≤ max)
      × ((rest : Str) × (s ≡ truncate_utf8 s max ++ rest))
      × (length u ≤ length (truncate_utf8 s max))
unfolding truncate_utf8
truncate_utf8_longest s max u v e h = elim (Bool-cases (leb (len s) max)) [
  | inl fits ↦
      rw fits
        (ground arith, ([], sym (append-nil s)), omega (arith, ap length e, length-append u v))
  | inr past ↦
      rw (past, slice_to-seek_boundary s max)
        (len-slice_to-le s max, slice_to_prefix s max, rw e (slice_to_longest u v max h))
]

pub len-truncate_utf8-le : (s : Str) (max : ℕ) → len (truncate_utf8 s max) ≤ max
len-truncate_utf8-le s max = (truncate_utf8_longest s max [] s refl (omega arith)).0
