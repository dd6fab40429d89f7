-- ===== src/Base/Updates.antt =====
-- Laws of UPDATE.
use mathlib.Core.Path.{◌≡◌, refl}
use mathlib.Core.Bool.{Bool, true, false}
use mathlib.Core.List.{List, [], ◌∷◌}
use mathlib.Core.Logic.{inl, inr}
use native.Mathlib.Omega.{arith}
use rust_events.Base.Tests.{Bool-cases}
use rust_events.Base.Lists.{All, any}
use rust_events.Base.Table.{update_where, update_passes}

module _ {ℓ} {A : Type ℓ} where
  -- What the rows satisfy and the written rows get back is kept.
  pub update_where-All {κ μ} :
      (P : A → Type κ) (Q : A → Type μ) (p : A → Bool) (f : A → A) (xs : List A)
      → ((x : A) → P x → p x ≡ true → Q (f x))
      → ((x : A) → P x → Q x)
      → All P xs
      → All Q (update_where p f xs)
  update_where-All P Q p f [] hit miss h = tt
  update_where-All P Q p f (x ∷ xs) hit miss (h, hs) = elim (Bool-cases (p x)) [
    | inl e ↦ rw e (hit x h e, update_where-All P Q p f xs hit miss hs)
    | inr e ↦ rw e (miss x h, update_where-All P Q p f xs hit miss hs)
  ]

  pub update_passes-All {κ} :
      (P : A → Type κ) (check : A → Bool) (p : A → Bool) (f : A → A) (xs : List A)
      → ((x : A) → P x → p x ≡ true → check (f x) ≡ true)
      → All P xs
      → update_passes check p f xs ≡ true
  update_passes-All P check p f [] hit h = refl
  update_passes-All P check p f (x ∷ xs) hit (h, hs) = elim (Bool-cases (p x)) [
    | inl e ↦ rw (e, hit x h e) (update_passes-All P check p f xs hit hs)
    | inr e ↦ rw e (update_passes-All P check p f xs hit hs)
  ]

  -- An UPDATE that fits no row.
  pub update_where_none {κ} :
      (P : A → Type κ) (p : A → Bool) (f : A → A) (xs : List A)
      → ((x : A) → P x → p x ≡ false)
      → All P xs
      → update_where p f xs ≡ xs
  update_where_none P p f [] miss h = refl
  update_where_none P p f (x ∷ xs) miss (h, hs) = rw (miss x h, update_where_none P p f xs miss hs)

  -- An UPDATE of exactly the rows that one before it wrote.
  pub update_where-update_where :
      (p q : A → Bool) (f g : A → A) (xs : List A)
      → ((x : A) → p x ≡ true → q (f x) ≡ true)
      → ((x : A) → p x ≡ false → q x ≡ false)
      → update_where q g (update_where p f xs) ≡ update_where p (λ x. g (f x)) xs
  update_where-update_where p q f g [] hit miss = refl
  update_where-update_where p q f g (x ∷ xs) hit miss = elim (Bool-cases (p x)) [
    | inl e ↦ rw (e, hit x e, update_where-update_where p q f g xs hit miss)
    | inr e ↦ rw (e, miss x e, update_where-update_where p q f g xs hit miss)
  ]

  pub update_where_of_any :
      (p : A → Bool) (f : A → A) (xs : List A) → any p xs ≡ false → update_where p f xs ≡ xs
  update_where_of_any p f [] h = refl
  update_where_of_any p f (x ∷ xs) h = ground (arith, update_where_of_any p f xs)
