-- ===== src/System/Locks.antt =====
-- Who has the lock of a key, and which row the key has.
use rust_events.Base.{
  ℕ, Bool, true, false, ◌&&◌, ◌≡◌, refl, sym, ◌∙◌, inl, inr, Bool-cases, Option, none, some, List,
  [], ◌∷◌, ◌++◌, Str, str_eq_iff, any, first, select_where, delete_where, ◌==◌, arith,
}
use rust_events.Schema.{DispatchKey}
use rust_events.Dispatch.Transaction.{is_key}
use rust_events.Purge.Statements.{same_key}
use rust_events.System.Races.{Reservation, own_rows, others}

-- The row of a key.
abbrev pub key_row : Str → Str → List DispatchKey → Option DispatchKey
key_row tenant key keys = first (select_where (is_key tenant key) keys)

module _ (tenant key : Str) where
  abbrev this : DispatchKey → Bool
  this = is_key tenant key

  abbrev pub has_lock : Reservation → Bool
  has_lock r = this r.row

  -- `tx` has the lock of the key, and no other transaction has.
  pub record IsLockedBy (tx : ℕ) (held : List Reservation) : Type 0 where
    pub by_this : any (λ r. r.tx == tx && has_lock r) held ≡ true
    pub by_no_other : any has_lock (others tx held) ≡ false

  pub first-append :
      (ks js : List DispatchKey)
      → key_row tenant key ks ≡ none
      → key_row tenant key (ks ++ js) ≡ key_row tenant key js
  first-append [] js h = refl
  first-append (k ∷ ks) js h = ground (arith, h, first-append ks js)

  pub drop_middle :
      (xs ks js : List DispatchKey)
      → key_row tenant key ks ≡ none
      → key_row tenant key (xs ++ (ks ++ js)) ≡ key_row tenant key (xs ++ js)
  drop_middle [] ks js h = first-append ks js h
  drop_middle (x ∷ xs) ks js h = ground (arith, drop_middle xs ks js h)

  pub none_in_tail :
      (xs ks : List DispatchKey)
      → key_row tenant key (xs ++ ks) ≡ none
      → key_row tenant key ks ≡ none
  none_in_tail [] ks h = h
  none_in_tail (x ∷ xs) ks h = ground (arith, h, none_in_tail xs ks)

  pub same_tail :
      (xs ks js : List DispatchKey)
      → key_row tenant key ks ≡ key_row tenant key js
      → key_row tenant key (xs ++ ks) ≡ key_row tenant key (xs ++ js)
  same_tail [] ks js h = h
  same_tail (x ∷ xs) ks js h = ground (arith, same_tail xs ks js h)

  -- The rows of a transaction that has no lock of the key.
  pub own_rows-none :
      (tx : ℕ) (held : List Reservation)
      → any (λ r. r.tx == tx && has_lock r) held ≡ false
      → key_row tenant key (own_rows tx held) ≡ none
  own_rows-none tx [] h = refl
  own_rows-none tx (r ∷ rs) h = ground (arith, h, own_rows-none tx rs)

  pub other_has_none :
      (mine tx : ℕ) (held : List Reservation)
      → (tx == mine) ≡ false
      → any has_lock (others mine held) ≡ false
      → any (λ r. r.tx == tx && has_lock r) held ≡ false
  other_has_none mine tx [] other h = refl
  other_has_none mine tx (r ∷ rs) other h =
      ground (arith, other, h, other_has_none mine tx rs other)

  -- Another transaction's end.
  pub own_rows-others :
      (mine tx : ℕ) (held : List Reservation)
      → (tx == mine) ≡ false
      → own_rows mine (others tx held) ≡ own_rows mine held
  own_rows-others mine tx [] other = refl
  own_rows-others mine tx (r ∷ rs) other = ground (arith, other, own_rows-others mine tx rs other)

  pub others-IsLockedBy :
      (mine tx : ℕ) (held : List Reservation)
      → (tx == mine) ≡ false
      → IsLockedBy mine held
      → IsLockedBy mine (others tx held)
  others-IsLockedBy mine tx held other l = record {
    by_this = kept held l.by_this;
    by_no_other = fewer held l.by_no_other;
  }
    where
      kept :
          (rs : List Reservation)
          → any (λ r. r.tx == mine && has_lock r) rs ≡ true
          → any (λ r. r.tx == mine && has_lock r) (others tx rs) ≡ true
      kept [] h = h
      kept (r ∷ rs) h = ground (arith, other, h, kept rs)

      fewer :
          (rs : List Reservation)
          → any has_lock (others mine rs) ≡ false
          → any has_lock (others mine (others tx rs)) ≡ false
      fewer [] h = h
      fewer (r ∷ rs) h = ground (arith, h, fewer rs)

  -- A DELETE of other rows.
  pub key_row-delete_where :
      (p : DispatchKey → Bool) (held : List Reservation) (mine : ℕ) (ks : List DispatchKey)
      → any (λ r. r.tx == mine && has_lock r) held ≡ true
      → any (λ k. p k && any (λ r. same_key r.row k) held) ks ≡ false
      → key_row tenant key (delete_where p ks) ≡ key_row tenant key ks
  key_row-delete_where p held mine [] locked free = refl
  key_row-delete_where p held mine (k ∷ ks) locked free =
      ground (arith, free, key_row-delete_where p held mine ks locked, locked_row held locked)
    where
      locked_row :
          (rs : List Reservation)
          → any (λ r. r.tx == mine && has_lock r) rs ≡ true
          → this k ≡ true
          → any (λ r. same_key r.row k) rs ≡ true
      locked_row [] h e = absurd (ground (arith, h))
      locked_row (r ∷ rs) h e = ground (
        arith,
        h,
        e,
        locked_row rs,
        str_eq_iff r.row.tenant_id tenant,
        str_eq_iff k.tenant_id tenant,
        str_eq_iff r.row.tenant_id k.tenant_id,
        str_eq_iff r.row.idempotency_key key,
        str_eq_iff k.idempotency_key key,
        str_eq_iff r.row.idempotency_key k.idempotency_key,
      )

  pub key_row-this :
      (ks : List DispatchKey) (k : DispatchKey) → key_row tenant key ks ≡ some k → this k ≡ true
  key_row-this [] k h = absurd (ground (arith, h))
  key_row-this (j ∷ ks) k h = elim (Bool-cases (this j)) [
    | inl e ↦ ground (arith, e, h)
    | inr e ↦ key_row-this ks k (ground (arith, e, h))
  ]

-- One row has one key.
pub one_key :
    (tenant key tenant' key' : Str) (k : DispatchKey)
    → is_key tenant key k ≡ true
    → is_key tenant' key' k ≡ true
    → (tenant' ≡ tenant) × (key' ≡ key)
one_key tenant key tenant' key' k e e' =
    let same : (k.tenant_id ≡ tenant) × (k.idempotency_key ≡ key) =
      ground (arith, e, str_eq_iff k.tenant_id tenant, str_eq_iff k.idempotency_key key) in
    let same' : (k.tenant_id ≡ tenant') × (k.idempotency_key ≡ key') =
      ground (arith, e', str_eq_iff k.tenant_id tenant', str_eq_iff k.idempotency_key key') in
    (sym same'.0 ∙ same.0, sym same'.1 ∙ same.1)

pub another_key :
    (tenant key : Str) (k : DispatchKey)
    → (is_key tenant key k ≡ true → ⊥)
    → is_key tenant key k ≡ false
another_key tenant key k h = elim (Bool-cases (is_key tenant key k)) [
  | inl e ↦ absurd (h e)
  | inr e ↦ e
]

-- A lock is another's to all others.
pub lock_seen :
    (tenant key : Str) (mine tx : ℕ) (held : List Reservation)
    → (tx == mine) ≡ false
    → any (λ r. r.tx == mine && is_key tenant key r.row) held ≡ true
    → any (λ r. is_key tenant key r.row) (others tx held) ≡ true
lock_seen tenant key mine tx [] other h = absurd (ground (arith, h))
lock_seen tenant key mine tx (r ∷ rs) other h =
    ground (arith, other, h, lock_seen tenant key mine tx rs other)
