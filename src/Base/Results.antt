-- ===== src/Base/Results.antt =====
-- Rust's `Result`, and calls that change a state and may fail: what they wrote stays written when
-- they return an error.
use mathlib.Core.Path.{ap, ◌≡◌, refl}
use mathlib.Core.Logic.{◌⊎◌, inl, inr}
use mathlib.Core.Bool.{Bool, true, false}
use mathlib.Core.Option.{Option, none, some}

pub data Result {ℓ κ} (A : Type ℓ) (E : Type κ) : Type (ℓ ⊔ κ) where
  ok : A → Result A E
  err : E → Result A E

abbrev pub Action : Type 0 → Type 0 → Type 0 → Type 0
Action S A E = S → Result A E × S

module _ {S A E : Type 0} where
  abbrev pub pure : A → Action S A E
  pure a s = (ok a, s)

  abbrev pub raise : E → Action S A E
  raise e s = (err e, s)

  -- `r?` on a value that is at hand.
  abbrev pub lift : Result A E → Action S A E
  lift r s = (r, s)

  abbrev pub or_raise : Option A → E → Action S A E
  or_raise none e s = (err e, s)
  or_raise (some a) e s = (ok a, s)

infixl 5 ◌>>=◌ ◌>>◌
abbrev pub ◌>>=◌ : {S A B E : Type 0} → Action S A E → (A → Action S B E) → Action S B E
◌>>=◌ m f s = let (r, s') = m s in elim r [ ok a ↦ f a s' | err e ↦ (err e, s') ]

abbrev pub ◌>>◌ : {S A B E : Type 0} → Action S A E → Action S B E → Action S B E
◌>>◌ m k = m >>= λ _. k

-- `map_err`.
abbrev pub map_err {ℓ κ μ} :
    {A : Type ℓ} {E : Type κ} {F : Type μ} → (E → F) → Result A E → Result A F
map_err f (ok a) = ok a
map_err f (err e) = err (f e)

abbrev pub catch : {S A E F : Type 0} → (E → F) → Action S A E → Action S A F
catch f m s = let (r, s') = m s in (map_err f r, s')

-- `if c { return Err(e); }`
abbrev pub raise_if : {S E : Type 0} → Bool → E → Action S (Unit {0}) E
raise_if true e s = (err e, s)
raise_if false e s = (ok tt, s)

pub Result-cases {ℓ κ} :
    {A : Type ℓ} {E : Type κ} (r : Result A E) → ((a : A) × (r ≡ ok a)) ⊎ ((e : E) × (r ≡ err e))
Result-cases (ok a) = inl (a, refl)
Result-cases (err e) = inr (e, refl)

-- A successful call, opened at its first step.
pub >>=-eq-ok :
    {S A B E : Type 0} (m : Action S A E) (f : A → Action S B E) (s : S) {b : B}
    → ((m >>= f) s).0 ≡ ok b
    → (a : A) × ((m s).0 ≡ ok a) × ((m >>= f) s ≡ f a (m s).1)
>>=-eq-ok m f s h = elim (Result-cases (m s).0) [
  | inl (a, e) ↦ (a, e, rw (e, ◌>>=◌))
  | inr (x, e) ↦ absurd (cc (rw (e, ◌>>=◌) at h))
]

-- Actions that do the same at a state do so with what follows.
pub >>=-ap :
    {S A B E : Type 0} (m m' : Action S A E) (f : A → Action S B E) (s : S)
    → m s ≡ m' s
    → (m >>= f) s ≡ (m' >>= f) s
>>=-ap {S = S} {B = B} {E = E} m m' f s h =
    ap (λ r. elim r.0 as (λ _. Result B E × S) [ ok a ↦ f a r.1 | err e ↦ (err e, r.1) ]) h

-- A call that succeeds goes on with its value.
pub >>=-ok :
    {S A B E : Type 0} (m : Action S A E) (f : A → Action S B E) (s s' : S) (a : A)
    → m s ≡ (ok a, s')
    → (m >>= f) s ≡ f a s'
>>=-ok {S = S} {B = B} {E = E} m f s s' a h =
    ap (λ r. elim r.0 as (λ _. Result B E × S) [ ok a ↦ f a r.1 | err e ↦ (err e, r.1) ]) h
