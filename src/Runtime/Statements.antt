-- ===== src/Runtime/Statements.antt =====
-- The statements of src/runtime.rs on valid rows.
use rust_events.Base.{
  ℕ, ◌≡◌, Bool, true, false, Str, Result, ok, update_where, update_passes, count_where,
  update_where-All, update_passes-All, arith,
}
use rust_events.Util.{SqlxError}
use rust_events.Schema.{Db, Delivery, deliveries_check, Wire, reply, lost_before, lost_after, over}
use rust_events.Schema.Status.{is_terminal, is_running}
use rust_events.Schema.Valid.{IsValid, AreValid}
use rust_events.Runtime.Marks.{is_fenced, update_deliveries}
use rust_events.Runtime.Claim.{found_row, set_running, is_claimable, claim_delivery}
use rust_events.Runtime.Rows.{set_running-IsValid}

-- What holds before a statement and after it holds whatever the wire does.
pub over_cases {ℓ} :
    {S A : Type 0} (P : S → Type ℓ) (wire : Wire) (m : S → Result A SqlxError × S) (s : S)
    → P s
    → P (m s).1
    → P (over wire m s).1
unfolding over
over_cases P reply m s before after = after
over_cases P (lost_before e) m s before after = before
over_cases P (lost_after e) m s before after = after

pub is_fenced-is_running :
    (event_id token : ℕ) (handler_id : Str) (d : Delivery)
    → is_fenced event_id handler_id token d ≡ true
    → is_running d.status ≡ true
is_fenced-is_running event_id token handler_id d h = ground arith

pub is_claimable-is_terminal :
    (event_id : ℕ) (handler_id : Str) (d : Delivery)
    → is_claimable event_id handler_id d ≡ true
    → is_terminal d.status ≡ false
is_claimable-is_terminal event_id handler_id d h = ground arith

module _ {M : Type 0} (now : ℕ) (p : Delivery → Bool) (f : Delivery → Delivery) (db : Db M)
    (v : AreValid now db.deliveries)
    (keeps : (d : Delivery) → IsValid now d → p d ≡ true → IsValid now (f d)) where
  pub update_passes_of_AreValid : update_passes deliveries_check p f db.deliveries ≡ true
  update_passes_of_AreValid =
      update_passes-All (IsValid now) deliveries_check p f db.deliveries
        (λ d u h. (keeps d u h).checked) v

  pub update_where-AreValid : AreValid now (update_where p f db.deliveries)
  update_where-AreValid =
      update_where-All (IsValid now) (IsValid now) p f db.deliveries keeps (λ d u. u) v

  pub update_deliveries_lem : update_deliveries p f db ≡ (
    ok (count_where p db.deliveries),
    record db { deliveries = update_where p f db.deliveries },
  )
  unfolding update_deliveries
  update_deliveries_lem = rw update_passes_of_AreValid

module _ {M : Type 0} (now event_id : ℕ) (handler_id : Str) (attempt token : ℕ) (db : Db M)
    (v : AreValid now db.deliveries) where
  claim_keeps :
      (d : Delivery)
      → IsValid now d
      → is_claimable event_id handler_id d ≡ true
      → IsValid now (set_running now attempt token d)
  claim_keeps d u h =
      set_running-IsValid now attempt token d u (is_claimable-is_terminal event_id handler_id d h)

  -- The claim on valid rows goes through, and writes exactly the claimable row.
  pub claim_delivery_lem : claim_delivery now event_id handler_id attempt token db ≡ (
    ok (found_row event_id handler_id db),
    record db {
      deliveries =
          update_where
            (is_claimable event_id handler_id)
            (set_running now attempt token)
            db.deliveries;
    },
  )
  unfolding claim_delivery
  claim_delivery_lem = rw (
      update_passes_of_AreValid now (is_claimable event_id handler_id)
        (set_running now attempt token) db v claim_keeps)

  pub claim_delivery-AreValid :
      AreValid now (claim_delivery now event_id handler_id attempt token db).1.deliveries
  claim_delivery-AreValid = rw claim_delivery_lem (
      update_where-AreValid now (is_claimable event_id handler_id) (set_running now attempt token)
        db v claim_keeps)
