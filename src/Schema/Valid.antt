-- ===== src/Schema/Valid.antt =====
-- A row of `outbox.handler_deliveries` that passes the CHECKs, and whose times are past.
use rust_events.Base.{
  AreDistinct, ℕ, ◌≤◌, ◌≡◌, refl, Bool, true, false, ◌&&◌, inl, inr, Option, none, some, List, [],
  ◌∷◌, Str, All, All-mono, any, first, select_where, str_eq_iff, Bool-cases, arith,
}
use rust_events.Schema.{Delivery, deliveries_check, is_delivery}

abbrev pub IsBy : ℕ → Option ℕ → Type 0
IsBy now none = Unit
IsBy now (some t) = t ≤ now

pub record IsValid (now : ℕ) (d : Delivery) : Type 0 where
  pub checked : deliveries_check d ≡ true
  pub created_by : d.created_at ≤ now
  pub updated_by : d.updated_at ≤ now
  pub first_by : IsBy now d.first_attempted_at
  pub last_by : IsBy now d.last_attempted_at

abbrev pub AreValid : ℕ → List Delivery → Type 0
AreValid now = All (IsValid now)

IsBy-mono : {m n : ℕ} (t : Option ℕ) → m ≤ n → IsBy m t → IsBy n t
IsBy-mono none h b = tt
IsBy-mono (some t) h b = omega arith

pub IsValid-mono : {m n : ℕ} (d : Delivery) → m ≤ n → IsValid m d → IsValid n d
IsValid-mono d h v = record {
  checked = v.checked;
  created_by = omega arith;
  updated_by = omega arith;
  first_by = IsBy-mono d.first_attempted_at h v.first_by;
  last_by = IsBy-mono d.last_attempted_at h v.last_by;
}

pub AreValid-mono : {m n : ℕ} (ds : List Delivery) → m ≤ n → AreValid m ds → AreValid n ds
AreValid-mono {m} {n} ds h = All-mono (IsValid m) (IsValid n) ds (λ d. IsValid-mono d h)

-- The UNIQUE key (event_id, handler_id).
abbrev pub HasUniqueKeys : List Delivery → Type 0
HasUniqueKeys = AreDistinct (λ v d. is_delivery v.event_id v.handler_id d)

module _ (event_id : ℕ) (handler_id : Str) where
  abbrev this : Delivery → Bool
  this = is_delivery event_id handler_id

  this-lem : (d : Delivery) → this d ≡ true → (d.event_id ≡ event_id) × (d.handler_id ≡ handler_id)
  this-lem d h = ground (arith, str_eq_iff d.handler_id handler_id)

  any-and_none :
      (q : Delivery → Bool) (ds : List Delivery)
      → any this ds ≡ false
      → any (λ d. this d && q d) ds ≡ false
  any-and_none q [] h = refl
  any-and_none q (d ∷ ds) h = ground (arith, any-and_none q ds)

  -- A test on the row of a key is a test on the one row that is found.
  pub any_of_key :
      (q : Delivery → Bool) (ds : List Delivery) (d : Delivery)
      → HasUniqueKeys ds
      → first (select_where this ds) ≡ some d
      → any (λ x. this x && q x) ds ≡ q d
  any_of_key q [] d u h = cc
  any_of_key q (x ∷ ds) d u h = elim (Bool-cases (this x)) [
    | inl e ↦ found e (this-lem x e)
    | inr e ↦ rw e (any_of_key q ds d u.1 (rw e at h))
  ]
    where
      found :
          this x ≡ true
          → (x.event_id ≡ event_id) × (x.handler_id ≡ handler_id)
          → any (λ y. this y && q y) (x ∷ ds) ≡ q d
      found e k =
          let later : any this ds ≡ false = rw (k.0, k.1) at (u.0) in
          ground (arith, e, h, any-and_none q ds later)

  pub any_of_no_key :
      (q : Delivery → Bool) (ds : List Delivery)
      → first (select_where this ds) ≡ none
      → any (λ x. this x && q x) ds ≡ false
  any_of_no_key q [] h = refl
  any_of_no_key q (x ∷ ds) h = ground (arith, any_of_no_key q ds)
