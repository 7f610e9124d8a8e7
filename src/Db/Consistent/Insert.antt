-- ===== src/Db/Consistent/Insert.antt =====
-- A new pending order with its items, as `createBooking` commits it, keeps the tables consistent.
use ticket_booking.Base.{
  ℕ, ◌≡◌, refl, true, false, ◌&&◌, List, [], ◌∷◌, ◌++◌, arith, ◌==◌, select, any, All, any-append,
  any-congr, any_none, select-append, select_none, All-append, All-imp, All-map, All-map_of,
  All-select, All-listed, Distinct-append, Distinct-map, Distinct-select,
}
use ticket_booking.Db.{
  Db, Order, Item, Payment, pending, of_order, taken, item_for, bookable, new_items, sum_price,
}
use ticket_booking.Db.Rows.{status_of, status_of_unlisted, has_paid, paid_for}
use ticket_booking.Db.Consistent.{IsConsistent, seat_key, item_seat, is_charged}

-- An order that is not paid has no payment.
pub uncharged :
    (o : ℕ) (orders : List Order) (payments : List Payment)
    → All (λ p. has_paid (status_of p.order_id orders) ≡ true) payments
    → has_paid (status_of o orders) ≡ false
    → is_charged payments o ≡ false
uncharged o orders [] h e = refl
uncharged o orders (p ∷ ps) (h, t) e = ground (arith, h, uncharged o orders ps t)

module _ (db : Db) (fresh user expires_at event : ℕ) (ids : List ℕ) where
  abbrev pub placed : Order
  placed = record { id = fresh; user_id = user; status = pending; expires_at = expires_at }

  abbrev pub added : List Item
  added = new_items fresh ids event db.seats

  abbrev pub with_booking : Db
  with_booking = record db { orders = placed ∷ db.orders; items = added ++ db.items }

  has_paid_before :
      (k : ℕ)
      → any (λ o. o.id == fresh) db.orders ≡ false
      → has_paid (status_of k (placed ∷ db.orders)) ≡ has_paid (status_of k db.orders)
  has_paid_before k h = ground (arith, status_of_unlisted k db.orders)

  paid_for_before :
      (s : ℕ)
      → any (λ o. o.id == fresh) db.orders ≡ false
      → paid_for (placed ∷ db.orders) (added ++ db.items) s ≡ paid_for db.orders db.items s
  unfolding new_items
  paid_for_before s h = ground (
    arith,
    any-append (λ i. i.seat_id == s && has_paid (status_of i.order_id (placed ∷ db.orders))) added
        db.items,
    any_none (λ i. i.seat_id == s && has_paid (status_of i.order_id (placed ∷ db.orders))) added
        (All-map _ (item_for fresh) (λ x. ground arith) _),
    any-congr (λ i. i.seat_id == s && has_paid (status_of i.order_id (placed ∷ db.orders)))
        (λ i. i.seat_id == s && has_paid (status_of i.order_id db.orders))
        (λ i. ground (arith, has_paid_before i.order_id h)) db.items,
  )

  items_before :
      (k : ℕ)
      → (fresh == k) ≡ false
      → select (of_order k) (added ++ db.items) ≡ select (of_order k) db.items
  unfolding new_items
  items_before k h = ground (
    arith,
    select-append (of_order k) added db.items,
    select_none (of_order k) added (All-map _ (item_for fresh) (λ x. h) _),
  )

  other_than_fresh :
      (k : ℕ)
      → any (λ o. o.id == fresh) db.orders ≡ false
      → has_paid (status_of k db.orders) ≡ true
      → (fresh == k) ≡ false
  other_than_fresh k h e = ground (arith, status_of_unlisted k db.orders)

  amounts_before :
      any (λ o. o.id == fresh) db.orders ≡ false
      → (ps : List Payment) → All (λ p. has_paid (status_of p.order_id db.orders) ≡ true) ps
      → All (λ p. p.amount ≡ sum_price (select (of_order p.order_id) db.items)) ps
      → All (λ p. p.amount ≡ sum_price (select (of_order p.order_id) (added ++ db.items))) ps
  amounts_before new [] h k = tt
  amounts_before new (p ∷ ps) (h, t) (k, l) = (
    rw (items_before p.order_id (other_than_fresh p.order_id new h)) k,
    amounts_before new ps t l,
  )

  pub with_booking-IsConsistent :
      IsConsistent db
      → any (λ o. o.id == fresh) db.orders ≡ false
      → any (λ i. taken i.seat_id db.items) added ≡ false
      → IsConsistent with_booking
  unfolding new_items
  with_booking-IsConsistent v new free = record {
    orders_differ = (new, v.orders_differ);
    seats_differ = v.seats_differ;
    one_item =
        Distinct-append item_seat added db.items
          (Distinct-map item_seat seat_key (item_for fresh) (λ s. refl) _
            (Distinct-select seat_key _ db.seats v.seats_differ))
          v.one_item free;
    items_seated =
        All-append _ added db.items
          (All-map_of _ _ (item_for fresh) (λ s h. h) _
            (All-select _ (bookable ids event) db.seats (All-listed seat_key db.seats)))
          v.items_seated;
    items_active =
        All-append _ added db.items (All-map _ (item_for fresh) (λ s. ground arith) _)
          (All-imp _ _ (λ i h. ground (arith, h)) db.items v.items_active);
    sold_is_paid =
        All-imp _ _ (λ s h. ground (arith, h, paid_for_before s.id new)) db.seats v.sold_is_paid;
    payments_paid =
        All-imp _ _ (λ p h. ground (arith, h, has_paid_before p.order_id new)) db.payments
          v.payments_paid;
    one_payment = v.one_payment;
    paid_is_charged = (
      ground (
        arith,
        uncharged fresh db.orders db.payments v.payments_paid,
        status_of_unlisted fresh db.orders new,
      ),
      v.paid_is_charged,
    );
    amounts = amounts_before new db.payments v.payments_paid v.amounts;
  }
