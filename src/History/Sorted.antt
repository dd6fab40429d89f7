-- ===== src/History/Sorted.antt =====
-- `History::handler_deliveries_for`.
use rust_events.Base.{
  ℕ, ◌≡◌, refl, ◌∙◌, Bool, true, false, ◌&&◌, List, [], ◌∷◌, map, Str, ok, ◌==◌, count_where,
  select_where, sort_by, count_where-sort_by, IsOrdered, sort_by-IsOrdered, arith,
}
use rust_events.Schema.{Db, Delivery, reply, over}
use rust_events.History.{
  HandlerDeliveryRecord, delivery_record, str_le, handler_first, handler_deliveries_for,
}

str_le_total : (s t : Str) → str_le s t ≡ false → str_le t s ≡ true
unfolding str_le
str_le_total [] t h = absurd (ground (arith, h))
str_le_total (c ∷ s) [] h = refl
str_le_total (c ∷ s) (d ∷ t) h = ground (arith, str_le_total s t)

count_where-map :
    {A B : Type 0} (f : B → Bool) (g : A → B) (xs : List A)
    → count_where f (map g xs) ≡ count_where (λ x. f (g x)) xs
count_where-map f g [] = refl
count_where-map f g (x ∷ xs) = ground (arith, count_where-map f g xs)

count_where-select :
    {A : Type 0} (p f : A → Bool) (xs : List A)
    → count_where f (select_where p xs) ≡ count_where (λ x. p x && f x) xs
count_where-select p f [] = refl
count_where-select p f (x ∷ xs) = ground (arith, count_where-select p f xs)

IsOrdered-map :
    (xs : List Delivery)
    → IsOrdered handler_first xs
    → IsOrdered (λ r s. str_le r.handler_id s.handler_id) (map delivery_record xs)
IsOrdered-map [] h = tt
IsOrdered-map (x ∷ []) h = (tt, tt)
IsOrdered-map (x ∷ y ∷ xs) h = (h.0, IsOrdered-map (y ∷ xs) h.1)

-- If the server answers, `handler_deliveries_for` returns the deliveries of the event in the order of
-- their handler ids, and each as often as the table has it, with the columns that a record shows.
pub handler_deliveries_for_lem :
    {M : Type 0} (event_id : ℕ) (db : Db M)
    → (records : List HandlerDeliveryRecord) × (handler_deliveries_for reply event_id db
        ≡ (ok records, db))
      × IsOrdered (λ r s. str_le r.handler_id s.handler_id) records
      × ((f : HandlerDeliveryRecord → Bool)
          → count_where f records
            ≡ count_where (λ d. d.event_id == event_id && f (delivery_record d)) db.deliveries)
unfolding handler_deliveries_for over
handler_deliveries_for_lem event_id db =
    let mine = select_where (λ d. d.event_id == event_id) db.deliveries in
    (
      map delivery_record (sort_by handler_first mine),
      refl,
      IsOrdered-map _
          (sort_by-IsOrdered handler_first (λ d e. str_le_total d.handler_id e.handler_id) mine),
      λ f.
          count_where-map f delivery_record (sort_by handler_first mine)
          ∙ count_where-sort_by (λ d. f (delivery_record d)) handler_first mine
          ∙ count_where-select _ (λ d. f (delivery_record d)) db.deliveries,
    )
