-- ===== src/Base/Distinct.antt =====
-- Keys: no two rows of a list have one. `same` compares the keys of two rows.
use mathlib.Core.Path.{◌≡◌, refl}
use mathlib.Core.Bool.{Bool, true, false, ◌||◌}
use mathlib.Core.Logic.{inl, inr}
use mathlib.Core.List.{List, [], ◌∷◌, ◌++◌}
use native.Mathlib.Omega.{arith}
use rust_events.Base.Tests.{Bool-cases}
use rust_events.Base.Lists.{any, All, All-mono}
use rust_events.Base.Table.{delete_where}
use rust_events.Base.Chunks.{HasKey}

module _ {ℓ} {A : Type ℓ} where
  abbrev pub AreDistinct : (A → A → Bool) → List A → Type 0
  AreDistinct same [] = Unit
  AreDistinct same (x ∷ xs) = (any (same x) xs ≡ false) × AreDistinct same xs

  pub any-append : (f : A → Bool) (xs ys : List A) → any f (xs ++ ys) ≡ (any f xs || any f ys)
  any-append f [] ys = refl
  any-append f (x ∷ xs) ys = ground (arith, any-append f xs ys)

  pub any-delete_where :
      (f p : A → Bool) (xs : List A) → any f xs ≡ false → any f (delete_where p xs) ≡ false
  any-delete_where f p [] h = refl
  any-delete_where f p (x ∷ xs) h = ground (arith, any-delete_where f p xs)

  pub All-none : (f : A → Bool) (xs : List A) → any f xs ≡ false → All (λ x. f x ≡ false) xs
  All-none f [] h = tt
  All-none f (x ∷ xs) h = (ground (arith, h), All-none f xs (ground (arith, h)))

  pub any_none : (f : A → Bool) (xs : List A) → All (λ x. f x ≡ false) xs → any f xs ≡ false
  any_none f [] h = refl
  any_none f (x ∷ xs) h = ground (arith, h.0, any_none f xs h.1)

  pub delete_where-AreDistinct :
      (same : A → A → Bool) (p : A → Bool) (xs : List A)
      → AreDistinct same xs
      → AreDistinct same (delete_where p xs)
  delete_where-AreDistinct same p [] h = tt
  delete_where-AreDistinct same p (x ∷ xs) h = elim (Bool-cases (p x)) [
    | inl e ↦ rw e (delete_where-AreDistinct same p xs h.1)
    | inr e ↦ rw e (any-delete_where (same x) p xs h.0, delete_where-AreDistinct same p xs h.1)
  ]

  -- A row at the end.
  pub AreDistinct-append :
      (same : A → A → Bool) (xs : List A) (r : A)
      → AreDistinct same xs
      → All (λ x. same x r ≡ false) xs
      → AreDistinct same (xs ++ r ∷ [])
  AreDistinct-append same [] r h k = (refl, tt)
  AreDistinct-append same (x ∷ xs) r h k = (
    ground (arith, any-append (same x) xs (r ∷ []), h.0, k.0),
    AreDistinct-append same xs r h.1 k.1,
  )

  pub AreDistinct-HasKey :
      (same : A → A → Bool)
      → ((x y : A) → same x y ≡ same y x)
      → (xs : List A) → AreDistinct same xs
      → HasKey same xs
  AreDistinct-HasKey same sym_same [] h = tt
  AreDistinct-HasKey same sym_same (x ∷ xs) h =
      let apart = All-none (same x) xs h.0 in
      (
        (λ _. refl, All-mono _ _ xs (λ y n e. absurd (ground (arith, n, e))) apart),
        with_first xs apart (AreDistinct-HasKey same sym_same xs h.1),
      )
    where
      with_first :
          (vs : List A)
          → All (λ v. same x v ≡ false) vs
          → All (λ v. All (λ y. same v y ≡ true → v ≡ y) xs) vs
          → All (λ v. All (λ y. same v y ≡ true → v ≡ y) (x ∷ xs)) vs
      with_first [] n k = tt
      with_first (v ∷ vs) n k =
          ((λ e. absurd (ground (arith, n.0, e, sym_same x v)), k.0), with_first vs n.1 k.1)
