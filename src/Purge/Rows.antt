-- ===== src/Purge/Rows.antt =====
-- `purge_terminal_deliveries` and `purge_dispatch_keys`, which delete from one table.
use rust_events.Base.{
  ℕ, ◌<◌, ◌≡◌, refl, sym, ap, ◌∙◌, true, some, str_eq_iff, ok, count_where, delete_where,
  delete_where_of_count, HasKey, chunk_lem, arith,
}
use rust_events.Limits.{purge_chunk_size}
use rust_events.Schema.{Db, DispatchKey, reply}
use rust_events.Purge.Statements.{
  is_old_delivery, same_delivery, finished_first, is_old_key, same_key, created_first,
  delete_terminal_deliveries, delete_dispatch_keys,
}
use rust_events.Purge.Loop.{Deletes, purge_loop_lem}
use rust_events.Purge.{
  Chrono, finished, cutoff_from, purge_terminal_deliveries, purge_dispatch_keys,
}

same_key_refl : (k : DispatchKey) → same_key k k ≡ true
same_key_refl k = ground (
  arith,
  (str_eq_iff k.tenant_id k.tenant_id).1 refl,
  (str_eq_iff k.idempotency_key k.idempotency_key).1 refl,
)

module _ {M : Type 0} (cutoff : ℕ) where
  abbrev pub without_old_deliveries : Db M → Db M
  without_old_deliveries db = record db {
    deliveries = delete_where (is_old_delivery cutoff) db.deliveries;
  }

  abbrev pub without_old_keys : Db M → Db M
  without_old_keys db = record db {
    dispatch_keys = delete_where (is_old_key cutoff) db.dispatch_keys;
  }

  -- What is to be kept is as it was in `db0`.
  abbrev pub DeliveriesKept : Db M → Db M → Type 0
  DeliveriesKept db0 db =
      HasKey same_delivery db.deliveries × (without_old_deliveries db ≡ without_old_deliveries db0)

  abbrev pub KeysKept : Db M → Db M → Type 0
  KeysKept db0 db = HasKey same_key db.dispatch_keys × (without_old_keys db ≡ without_old_keys db0)

  pub delete_terminal_deliveries-Deletes :
      (db0 : Db M)
      → Deletes
          (delete_terminal_deliveries cutoff)
          (DeliveriesKept db0)
          (λ db. count_where (is_old_delivery cutoff) db.deliveries)
  unfolding delete_terminal_deliveries
  delete_terminal_deliveries-Deletes db0 db (key, kept) =
      let (key', same, counted, ends) =
        chunk_lem same_delivery finished_first purge_chunk_size (is_old_delivery cutoff)
          (λ d. ground arith) db.deliveries key in
      let step = ap (λ ds. record db { deliveries = ds }) same in
      (_, _, refl, (key', step ∙ kept), counted, ends)

  pub delete_dispatch_keys-Deletes :
      (db0 : Db M)
      → Deletes
          (delete_dispatch_keys cutoff)
          (KeysKept db0)
          (λ db. count_where (is_old_key cutoff) db.dispatch_keys)
  unfolding delete_dispatch_keys
  delete_dispatch_keys-Deletes db0 db (key, kept) =
      let (key', same, counted, ends) =
        chunk_lem same_key created_first purge_chunk_size (is_old_key cutoff) same_key_refl
          db.dispatch_keys key in
      let step = ap (λ ks. record db { dispatch_keys = ks }) same in
      (_, _, refl, (key', step ∙ kept), counted, ends)

module _ {M : Type 0} (chrono : Chrono) (fuel now older_than cutoff : ℕ) (db : Db M)
    (in_range : cutoff_from chrono now older_than ≡ some cutoff) where
  -- Given a cutoff that chrono can represent, answers from the server, ids that are keys, and fuel
  -- for the rows, `purge_terminal_deliveries` ends and returns the number of deliveries that are
  -- sent, skipped or dead and finished before the cutoff; exactly these are gone.
  pub purge_terminal_deliveries_total :
      HasKey same_delivery db.deliveries
      → count_where (is_old_delivery cutoff) db.deliveries < fuel
      → purge_terminal_deliveries chrono fuel (λ _. reply) now older_than db ≡ (
        finished (ok (count_where (is_old_delivery cutoff) db.deliveries)),
        without_old_deliveries cutoff db,
      )
  unfolding purge_terminal_deliveries
  purge_terminal_deliveries_total key enough = rw in_range (
      purge_loop_lem (delete_terminal_deliveries cutoff) (DeliveriesKept cutoff db)
        (λ s. count_where (is_old_delivery cutoff) s.deliveries) (without_old_deliveries cutoff db)
        (delete_terminal_deliveries-Deletes cutoff db)
        (λ s (_, kept) none_left.
          sym (
            ap (λ ds. record s { deliveries = ds })
              (delete_where_of_count (is_old_delivery cutoff) s.deliveries none_left))
          ∙ kept)
        fuel db (key, refl) enough)

  -- Given a cutoff that chrono can represent, answers from the server, rows that their tenant and key
  -- identify, and fuel for the rows, `purge_dispatch_keys` ends and returns the number of keys that
  -- were created before the cutoff; exactly these are gone.
  pub purge_dispatch_keys_total :
      HasKey same_key db.dispatch_keys
      → count_where (is_old_key cutoff) db.dispatch_keys < fuel
      → purge_dispatch_keys chrono fuel (λ _. reply) now older_than db ≡ (
        finished (ok (count_where (is_old_key cutoff) db.dispatch_keys)),
        without_old_keys cutoff db,
      )
  unfolding purge_dispatch_keys
  purge_dispatch_keys_total key enough = rw in_range (
      purge_loop_lem (delete_dispatch_keys cutoff) (KeysKept cutoff db)
        (λ s. count_where (is_old_key cutoff) s.dispatch_keys) (without_old_keys cutoff db)
        (delete_dispatch_keys-Deletes cutoff db)
        (λ s (_, kept) none_left.
          sym (
            ap (λ ks. record s { dispatch_keys = ks })
              (delete_where_of_count (is_old_key cutoff) s.dispatch_keys none_left))
          ∙ kept)
        fuel db (key, refl) enough)
