-- ===== src/Base/Actions.antt =====
-- What an action keeps of the state, whether it returns a value or an error.
use mathlib.Core.Bool.{Bool, true, false}
use mathlib.Core.Logic.{inl, inr}
use rust_events.Base.Results.{Action, Result-cases, raise_if, ◌>>=◌}

module _ {ℓ} {S : Type 0} (I : S → Type ℓ) where
  abbrev pub Keeps : {A E : Type 0} → Action S A E → Type ℓ
  Keeps m = (s : S) → I s → I (m s).1

  pub >>=-Keeps :
      {A B E : Type 0} (m : Action S A E) (f : A → Action S B E)
      → Keeps m
      → ((a : A) → Keeps (f a))
      → Keeps (m >>= f)
  >>=-Keeps m f h k s v = elim (Result-cases (m s).0) [
    | inl (a, e) ↦ rw (e, ◌>>=◌) (k a (m s).1 (h s v))
    | inr (x, e) ↦ rw (e, ◌>>=◌) (h s v)
  ]

  pub raise_if-Keeps : {E : Type 0} (c : Bool) (e : E) → Keeps (raise_if c e)
  raise_if-Keeps true e s v = v
  raise_if-Keeps false e s v = v
