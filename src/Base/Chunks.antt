-- ===== src/Base/Chunks.antt =====
-- One chunk of a purge: the first `limit` rows, in some order, of those that pass a test are deleted
-- by their key. `same` compares the keys of two rows.
use Prim.Native.Nat.{ℕ, ◌+◌, ◌≤◌, ◌<◌}
use mathlib.Core.Path.{◌≡◌, refl, subst}
use mathlib.Core.Bool.{Bool, true}
use mathlib.Core.Logic.{inl, inr}
use mathlib.Core.List.{List, [], ◌∷◌}
use native.Mathlib.Omega.{arith}
use rust_events.Base.Tests.{Bool-cases}
use rust_events.Base.Lists.{length, any, All, All-mono}
use rust_events.Base.Table.{select_where, delete_where, count_where}
use rust_events.Base.Order.{
  take, sort_by, All-take, All-sort_by, any-sort_by, count_where-sort_by, count_where-take,
  take_short, count_where-All,
}

module _ {ℓ} {A : Type ℓ} where
  -- SELECT … WHERE p ORDER BY … LIMIT limit
  unfoldable pub victims : (A → A → Bool) → ℕ → (A → Bool) → List A → List A
  victims le limit p rows = take limit (sort_by le (select_where p rows))

  -- key IN (SELECT key FROM victims)
  abbrev pub among : (A → A → Bool) → List A → A → Bool
  among same vs x = any (λ v. same v x) vs

  -- Two rows with one key are one row.
  abbrev pub HasKey : (A → A → Bool) → List A → Type ℓ
  HasKey same rows = All (λ v. All (λ x. same v x ≡ true → v ≡ x) rows) rows

  pub All-of {κ} : (P : A → Type κ) (xs : List A) → ((x : A) → P x) → All P xs
  All-of P [] f = tt
  All-of P (x ∷ xs) f = (f x, All-of P xs f)

  All-select_where {κ} :
      (P : A → Type κ) (p : A → Bool) (xs : List A)
      → All P xs
      → All (λ x. (p x ≡ true) × P x) (select_where p xs)
  All-select_where P p [] h = tt
  All-select_where P p (x ∷ xs) h = elim (Bool-cases (p x)) [
    | inl e ↦ rw e ((e, h.0), All-select_where P p xs h.1)
    | inr e ↦ rw e (All-select_where P p xs h.1)
  ]

  pub All-delete_where {κ} :
      (P : A → Type κ) (p : A → Bool) (xs : List A) → All P xs → All P (delete_where p xs)
  All-delete_where P p [] h = tt
  All-delete_where P p (x ∷ xs) h = elim (Bool-cases (p x)) [
    | inl e ↦ rw e (All-delete_where P p xs h.1)
    | inr e ↦ rw e (h.0, All-delete_where P p xs h.1)
  ]

  pub delete_where-HasKey :
      (same : A → A → Bool) (p : A → Bool) (rows : List A)
      → HasKey same rows
      → HasKey same (delete_where p rows)
  delete_where-HasKey same p rows h =
      All-delete_where _ p rows (All-mono _ _ rows (λ v k. All-delete_where _ p rows k) h)

  -- Deleting some of the rows that pass, and then all, deletes all.
  pub delete_where-delete_where :
      (p q : A → Bool) (rows : List A)
      → All (λ x. q x ≡ true → p x ≡ true) rows
      → delete_where p (delete_where q rows) ≡ delete_where p rows
  delete_where-delete_where p q [] h = refl
  delete_where-delete_where p q (x ∷ xs) h = ground (arith, h.0, delete_where-delete_where p q xs)

  pub count_where-delete_where :
      (p q : A → Bool) (rows : List A)
      → All (λ x. q x ≡ true → p x ≡ true) rows
      → count_where p rows ≡ count_where q rows + count_where p (delete_where q rows)
  count_where-delete_where p q [] h = refl
  count_where-delete_where p q (x ∷ xs) h = ground (arith, h.0, count_where-delete_where p q xs)

  -- Nothing is left to delete.
  pub delete_where_of_count :
      (p : A → Bool) (rows : List A) → count_where p rows ≡ 0 → delete_where p rows ≡ rows
  delete_where_of_count p [] h = refl
  delete_where_of_count p (x ∷ xs) h = ground (arith, delete_where_of_count p xs)

  count_where_none :
      (p q : A → Bool) (rows : List A)
      → All (λ x. p x ≡ true → q x ≡ true) rows
      → count_where p (delete_where q rows) ≡ 0
  count_where_none p q [] h = refl
  count_where_none p q (x ∷ xs) h = ground (arith, h.0, count_where_none p q xs)

  count_where-select_where-le :
      (f p : A → Bool) (rows : List A) → count_where f (select_where p rows) ≤ count_where f rows
  count_where-select_where-le f p [] = omega arith
  count_where-select_where-le f p (x ∷ xs) = ground (arith, count_where-select_where-le f p xs)

  pub count_where-le : (p : A → Bool) (rows : List A) → count_where p rows ≤ length rows
  count_where-le p [] = omega arith
  count_where-le p (x ∷ xs) = ground (arith, count_where-le p xs)

  count_where-select_where :
      (p : A → Bool) (rows : List A) → length (select_where p rows) ≡ count_where p rows
  count_where-select_where p [] = refl
  count_where-select_where p (x ∷ xs) = ground (arith, count_where-select_where p xs)

module _ {ℓ} {A : Type ℓ} (same le : A → A → Bool) (limit : ℕ) (p : A → Bool) where
  among-All :
      (vs rows : List A)
      → All (λ v. All (λ x. same v x ≡ true → p x ≡ true) rows) vs
      → All (λ x. among same vs x ≡ true → p x ≡ true) rows
  among-All [] rows h = All-of _ rows (λ x e. absurd (ground (arith, e)))
  among-All (v ∷ vs) rows h = both rows h.0 (among-All vs rows h.1)
    where
      both :
          (xs : List A)
          → All (λ x. same v x ≡ true → p x ≡ true) xs
          → All (λ x. among same vs x ≡ true → p x ≡ true) xs
          → All (λ x. among same (v ∷ vs) x ≡ true → p x ≡ true) xs
      both [] a b = tt
      both (x ∷ xs) a b = (λ e. ground (arith, a.0, b.0, e), both xs a.1 b.1)

  -- Only rows that pass are deleted.
  pub victims_pass :
      (rows : List A)
      → HasKey same rows
      → All (λ x. among same (victims le limit p rows) x ≡ true → p x ≡ true) rows
  unfolding victims
  victims_pass rows key = among-All (victims le limit p rows) rows (
      All-take _ limit (sort_by le (select_where p rows)) (
        All-sort_by _ le (select_where p rows) (
          All-mono _ _ (select_where p rows)
            (λ v (e, k). All-mono _ _ rows (λ x s t. subst (λ y. p y ≡ true) (s t) e) k)
            (All-select_where _ p rows key))))

module _ {ℓ} {A : Type ℓ} (same le : A → A → Bool) (limit : ℕ) (p : A → Bool)
    (same_refl : (x : A) → same x x ≡ true) where
  select_where-among :
      (rows : List A) → All (λ x. p x ≡ true → among same (select_where p rows) x ≡ true) rows
  select_where-among [] = tt
  select_where-among (x ∷ xs) = (
    λ e. ground (arith, e, same_refl x),
    All-mono _ _ xs (λ y h e. ground (arith, h e)) (select_where-among xs),
  )

  among_self : (vs : List A) → All (λ x. among same vs x ≡ true) vs
  among_self [] = tt
  among_self (v ∷ vs) =
      (ground (arith, same_refl v), All-mono _ _ vs (λ x h. ground (arith, h)) (among_self vs))

  -- At least as many rows are deleted as there are victims.
  victims_counted :
      (rows : List A)
      → length (victims le limit p rows) ≤ count_where (among same (victims le limit p rows)) rows
  unfolding victims
  victims_counted rows =
      let vs = victims le limit p rows in
      let hit = among same vs in
      let chosen = select_where p rows in
      omega (
        arith,
        count_where-All hit vs (among_self vs),
        count_where-take hit limit (sort_by le chosen),
        count_where-sort_by hit le chosen,
        count_where-select_where-le hit p rows,
      )

  -- A chunk that is not full leaves no row that passes.
  pub victims_short :
      (rows : List A)
      → count_where (among same (victims le limit p rows)) rows < limit
      → count_where p (delete_where (among same (victims le limit p rows)) rows) ≡ 0
  unfolding victims
  victims_short rows short =
      count_where_none p _ rows
        (All-mono _ _ rows (λ x h e. reaches x (h e)) (select_where-among rows))
    where
      all_taken : victims le limit p rows ≡ sort_by le (select_where p rows)
      all_taken =
          take_short limit (sort_by le (select_where p rows)) (omega (arith, victims_counted rows))

      reaches :
          (x : A)
          → among same (select_where p rows) x ≡ true
          → among same (victims le limit p rows) x ≡ true
      reaches x h = rw (all_taken, any-sort_by (λ v. same v x) le (select_where p rows)) h

  -- One chunk: the keys stay keys, what is to be kept is kept, and the count of the rest falls by
  -- what was deleted, to nothing if the chunk is not full.
  pub chunk_lem :
      (rows : List A)
      → HasKey same rows
      → let hit = among same (victims le limit p rows) in
        let left = delete_where hit rows in
        HasKey same left
        × (delete_where p left ≡ delete_where p rows)
        × (count_where p rows ≡ count_where hit rows + count_where p left)
        × (count_where hit rows < limit → count_where p left ≡ 0)
  chunk_lem rows key =
      let hit = among same (victims le limit p rows) in
      let pass = victims_pass same le limit p rows key in
      (
        delete_where-HasKey same hit rows key,
        delete_where-delete_where p hit rows pass,
        count_where-delete_where p hit rows pass,
        victims_short rows,
      )
