-- ===== src/Base/Maps.antt =====
-- A `HashMap` with texts for keys, as an association list with one entry to a key. The order of
-- the entries is that of their first insertion.
use mathlib.Core.Path.{◌≡◌, refl}
use mathlib.Core.Bool.{Bool}
use mathlib.Core.Option.{Option, none, some}
use mathlib.Core.List.{List, [], ◌∷◌, ◌++◌}
use mathlib.Core.List.{append-nil}
use native.Mathlib.Omega.{arith}
use rust_events.Base.Tests.{if◌then◌else◌, get_or, is_some}
use rust_events.Base.Text.{Str, str_eq, str_eq_iff}

abbrev pub HashMap {ℓ} : Type ℓ → Type ℓ
HashMap V = List (Str × V)

module _ {ℓ} {V : Type ℓ} where
  -- `HashMap::get`
  abbrev pub lookup : Str → HashMap V → Option V
  lookup k [] = none
  lookup k ((j, v) ∷ m) = if str_eq j k then some v else lookup k m

  -- `HashMap::contains_key`
  abbrev pub contains_key : Str → HashMap V → Bool
  contains_key k m = is_some (lookup k m)

  -- `HashMap::insert`
  abbrev pub insert : Str → V → HashMap V → HashMap V
  insert k v [] = (k, v) ∷ []
  insert k v ((j, w) ∷ m) = if str_eq j k then (k, v) ∷ m else (j, w) ∷ insert k v m

  pub lookup-insert :
      (k j : Str) (v : V) (m : HashMap V)
      → lookup j (insert k v m) ≡ (if str_eq k j then some v else lookup j m)
  lookup-insert k j v [] = refl
  lookup-insert k j v ((i, w) ∷ m) =
      ground (arith, str_eq_iff k j, str_eq_iff i k, str_eq_iff i j, lookup-insert k j v m)

-- `map.entry(k).or_default().push(x)`
abbrev pub push_at {ℓ} : {A : Type ℓ} → Str → A → HashMap (List A) → HashMap (List A)
push_at k x m = insert k (get_or (lookup k m) [] ++ x ∷ []) m

-- What stands under `j` after a push under `k`.
pub lookup-push_at {ℓ} :
    {A : Type ℓ} (k j : Str) (x : A) (m : HashMap (List A))
    → get_or (lookup j (push_at k x m)) []
      ≡ get_or (lookup j m) [] ++ (if str_eq k j then x ∷ [] else [])
lookup-push_at k j x m = ground (
  arith,
  str_eq_iff k j,
  lookup-insert k j (get_or (lookup k m) [] ++ x ∷ []) m,
  append-nil (get_or (lookup j m) []),
)
