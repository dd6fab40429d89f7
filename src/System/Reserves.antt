-- ===== src/System/Reserves.antt =====
-- The upsert of `Outbox::dispatch`, which reserves the idempotency key, keeps the tables sound.
use rust_events.Base.{
  ℕ, ◌≡◌, subst, refl, sym, false, none, inl, inr, Bool-cases, Option-cases, List, [], ◌∷◌, Str,
  str_eq_iff, any, first, ◌==◌, ◌||◌, not, select_where, Keeps, arith,
}
use rust_events.Schema.{Db, DispatchKey, dispatch_keys_check}
use rust_events.Dispatch.Transaction.{reserve_key, is_key, has_nul}
use rust_events.Purge.Statements.{same_key}
use rust_events.System.Sound.{IsSound}
use rust_events.System.Inserts.{any_id_swap}

-- A key that is not there yet.
no_such_key :
    (tenant key : Str) (ks : List DispatchKey) (row : DispatchKey)
    → row.tenant_id ≡ tenant
    → row.idempotency_key ≡ key
    → first (select_where (is_key tenant key) ks) ≡ none
    → any (same_key row) ks ≡ false
no_such_key tenant key [] row t i h = refl
no_such_key tenant key (k ∷ ks) row t i h = ground (
  arith,
  t,
  i,
  h,
  str_eq_iff k.tenant_id tenant,
  str_eq_iff row.tenant_id k.tenant_id,
  str_eq_iff k.idempotency_key key,
  str_eq_iff row.idempotency_key k.idempotency_key,
  no_such_key tenant key ks row,
)

module _ {M : Type 0} (now : ℕ) where
  abbrev with_key : DispatchKey → Db M → Db M
  with_key row db = record db { dispatch_keys = row ∷ db.dispatch_keys }

  pub reserve_key-Keeps :
      (at : ℕ) (tenant key : Str) (event_id : ℕ)
      → Keeps (IsSound {M = M} now) (reserve_key at tenant key event_id)
  unfolding reserve_key
  reserve_key-Keeps at tenant key event_id db s =
      let row : DispatchKey = record {
        tenant_id = tenant;
        idempotency_key = key;
        event_id = event_id;
        created_at = at;
      } in
      let run = reserve_key at tenant key event_id db in
      let kept : run.1 ≡ db → IsSound now run.1 = λ same. subst (IsSound now) (sym same) s in
      let refused =
        has_nul (tenant ∷ key ∷ [])
        || not (dispatch_keys_check row)
        || any (λ k. k.event_id == event_id) db.dispatch_keys in
      elim (Option-cases (first (select_where (is_key tenant key) db.dispatch_keys))) [
        | inr (k, e) ↦ kept (ground (arith, e))
        | inl none_there ↦ elim (Bool-cases refused) [
          | inl bad ↦ kept (ground (arith, none_there, bad))
          | inr good ↦
              let fresh : any (λ k. k.event_id == event_id) db.dispatch_keys ≡ false =
                ground (arith, good) in
              let wrote : run.1 ≡ with_key row db = ground (arith, none_there, good) in
              subst (IsSound now) (sym wrote) (record {
                deliveries = s.deliveries;
                events_distinct = s.events_distinct;
                keys_distinct = (
                  no_such_key tenant key db.dispatch_keys row refl refl none_there,
                  s.keys_distinct,
                );
                key_events_distinct = (
                  any_id_swap (λ (k : DispatchKey). k.event_id) db.dispatch_keys event_id fresh,
                  s.key_events_distinct,
                );
              })
        ]
      ]
