-- ===== src/Base/Order.antt =====
-- ORDER BY and LIMIT: a stable sort by a Boolean order, and the first rows of a list.
use Prim.Native.Nat.{ℕ, zero, suc, ◌+◌, ◌≤◌, ◌<◌}
use mathlib.Core.Path.{◌≡◌, refl}
use mathlib.Core.Bool.{Bool, true, false, ◌||◌}
use mathlib.Core.Logic.{inl, inr}
use mathlib.Core.List.{List, [], ◌∷◌}
use native.Mathlib.Omega.{arith}
use rust_events.Base.Tests.{if◌then◌else◌, Bool-cases}
use rust_events.Base.Lists.{length, any, All}
use rust_events.Base.Table.{count_where}

module _ {ℓ} {A : Type ℓ} where
  abbrev pub take : ℕ → List A → List A
  take zero xs = []
  take (suc n) [] = []
  take (suc n) (x ∷ xs) = x ∷ take n xs

  pub insert_by : (A → A → Bool) → A → List A → List A
  insert_by le x [] = x ∷ []
  insert_by le x (y ∷ ys) = if le x y then x ∷ y ∷ ys else y ∷ insert_by le x ys

  unfoldable pub sort_by : (A → A → Bool) → List A → List A
  unfolding insert_by
  sort_by le [] = []
  sort_by le (x ∷ xs) = insert_by le x (sort_by le xs)

  pub All-take {κ} : (P : A → Type κ) (n : ℕ) (xs : List A) → All P xs → All P (take n xs)
  All-take P zero xs h = tt
  All-take P (suc n) [] h = tt
  All-take P (suc n) (x ∷ xs) h = (h.0, All-take P n xs h.1)

  All-insert_by {κ} :
      (P : A → Type κ) (le : A → A → Bool) (x : A) (xs : List A)
      → P x
      → All P xs
      → All P (insert_by le x xs)
  unfolding insert_by
  All-insert_by P le x [] p h = (p, tt)
  All-insert_by P le x (y ∷ ys) p h = elim (Bool-cases (le x y)) [
    | inl e ↦ rw e (p, h)
    | inr e ↦ rw e (h.0, All-insert_by P le x ys p h.1)
  ]

  pub All-sort_by {κ} :
      (P : A → Type κ) (le : A → A → Bool) (xs : List A) → All P xs → All P (sort_by le xs)
  unfolding sort_by
  All-sort_by P le [] h = tt
  All-sort_by P le (x ∷ xs) h = All-insert_by P le x (sort_by le xs) h.0 (All-sort_by P le xs h.1)

  any-insert_by :
      (f : A → Bool) (le : A → A → Bool) (x : A) (xs : List A)
      → any f (insert_by le x xs) ≡ (f x || any f xs)
  unfolding insert_by
  any-insert_by f le x [] = refl
  any-insert_by f le x (y ∷ ys) = ground (arith, any-insert_by f le x ys)

  pub any-sort_by :
      (f : A → Bool) (le : A → A → Bool) (xs : List A) → any f (sort_by le xs) ≡ any f xs
  unfolding sort_by
  any-sort_by f le [] = refl
  any-sort_by f le (x ∷ xs) =
      ground (arith, any-insert_by f le x (sort_by le xs), any-sort_by f le xs)

  count_where-insert_by :
      (f : A → Bool) (le : A → A → Bool) (x : A) (xs : List A)
      → count_where f (insert_by le x xs) ≡ (if f x then 1 else 0) + count_where f xs
  unfolding insert_by
  count_where-insert_by f le x [] = ground arith
  count_where-insert_by f le x (y ∷ ys) = ground (arith, count_where-insert_by f le x ys)

  pub count_where-sort_by :
      (f : A → Bool) (le : A → A → Bool) (xs : List A)
      → count_where f (sort_by le xs) ≡ count_where f xs
  unfolding sort_by
  count_where-sort_by f le [] = refl
  count_where-sort_by f le (x ∷ xs) =
      ground (arith, count_where-insert_by f le x (sort_by le xs), count_where-sort_by f le xs)

  pub count_where-take :
      (f : A → Bool) (n : ℕ) (xs : List A) → count_where f (take n xs) ≤ count_where f xs
  count_where-take f zero xs = omega arith
  count_where-take f (suc n) [] = omega arith
  count_where-take f (suc n) (x ∷ xs) = ground (arith, count_where-take f n xs)

  -- A LIMIT that is not reached takes all.
  pub take_short : (n : ℕ) (xs : List A) → length (take n xs) < n → take n xs ≡ xs
  take_short zero xs h = absurd (omega arith)
  take_short (suc n) [] h = refl
  take_short (suc n) (x ∷ xs) h = ground (arith, take_short n xs)

  pub length-take-le : (n : ℕ) (xs : List A) → length (take n xs) ≤ n
  length-take-le zero xs = omega arith
  length-take-le (suc n) [] = omega arith
  length-take-le (suc n) (x ∷ xs) = omega (arith, length-take-le n xs)

  -- A test that every item passes counts them all.
  pub count_where-All :
      (f : A → Bool) (xs : List A) → All (λ x. f x ≡ true) xs → count_where f xs ≡ length xs
  count_where-All f [] h = refl
  count_where-All f (x ∷ xs) h = ground (arith, count_where-All f xs)

  abbrev pub HeadLe : (A → A → Bool) → A → List A → Type 0
  HeadLe le x [] = Unit
  HeadLe le x (y ∷ _) = le x y ≡ true

  -- Each item comes before the next.
  abbrev pub IsOrdered : (A → A → Bool) → List A → Type 0
  IsOrdered le [] = Unit
  IsOrdered le (x ∷ xs) = HeadLe le x xs × IsOrdered le xs

  module _ (le : A → A → Bool) (total : (x y : A) → le x y ≡ false → le y x ≡ true) where
    HeadLe-insert_by :
        (x y : A) (xs : List A) → HeadLe le y xs → le y x ≡ true → HeadLe le y (insert_by le x xs)
    unfolding insert_by
    HeadLe-insert_by x y [] h e = e
    HeadLe-insert_by x y (z ∷ xs) h e = elim (Bool-cases (le x z)) [
      | inl first ↦ rw first e
      | inr later ↦ rw later h
    ]

    insert_by-IsOrdered : (x : A) (xs : List A) → IsOrdered le xs → IsOrdered le (insert_by le x xs)
    unfolding insert_by
    insert_by-IsOrdered x [] h = (tt, tt)
    insert_by-IsOrdered x (y ∷ xs) h = elim (Bool-cases (le x y)) [
      | inl first ↦ rw first (first, h)
      | inr later ↦
          rw later (HeadLe-insert_by x y xs h.0 (total x y later), insert_by-IsOrdered x xs h.1)
    ]

    pub sort_by-IsOrdered : (xs : List A) → IsOrdered le (sort_by le xs)
    unfolding sort_by
    sort_by-IsOrdered [] = tt
    sort_by-IsOrdered (x ∷ xs) = insert_by-IsOrdered x (sort_by le xs) (sort_by-IsOrdered xs)
