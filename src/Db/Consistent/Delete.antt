-- ===== src/Db/Consistent/Delete.antt =====
-- Orders that end without payment, by `cancelOrder` or by the expiry worker, keep the tables
-- consistent: they lose their items and the paid orders keep theirs.
use mathlib.Core.Bool.{not}
use ticket_booking.Base.{
  ℕ, ◌≡◌, refl, Bool, true, false, ◌&&◌, List, [], ◌∷◌, arith, ◌==◌, select, All, any-congr,
  any-select, All-of, All-imp, All-select, All-select_of, All-update_of, Distinct, Distinct-select,
  Distinct-update,
}
use ticket_booking.Db.{
  Db, Order, Item, Payment, cancelled, is_paid, of_order, of_overdue, overdue, sum_price,
  set_status, delete_items, expire_overdue,
}
use ticket_booking.Db.Rows.{
  status_of, status_of-update, status_of-lapse, has_paid-lapse, overdue_unpaid, has_paid, is_open,
  paid_for, items_kept, lapse,
}
use ticket_booking.Db.Consistent.{IsConsistent, order_id, item_seat, is_charged}
use ticket_booking.Db.Consistent.Insert.{uncharged}

-- Any change of the orders that leaves the paid ones alone, with the items that it keeps.
module _ (db : Db) (orders : List Order) (keep : Item → Bool)
    (kept : (i : Item)
      → keep i ≡ true
      → status_of i.order_id orders ≡ status_of i.order_id db.orders)
    (same : (k : ℕ) → has_paid (status_of k orders) ≡ has_paid (status_of k db.orders))
    (dropped : (i : Item)
      → keep i ≡ false
      → has_paid (status_of i.order_id db.orders) ≡ false) where
  abbrev retired : Db
  retired = record db { orders = orders; items = select keep db.items }

  paid_for_same : (s : ℕ) → paid_for orders (select keep db.items) s ≡ paid_for db.orders db.items s
  paid_for_same s = ground (
    arith,
    any-select keep (λ i. i.seat_id == s && has_paid (status_of i.order_id orders)) db.items
        (All-of _ (λ i e. ground (arith, same i.order_id, dropped i e)) db.items),
    any-congr (λ i. i.seat_id == s && has_paid (status_of i.order_id orders))
        (λ i. i.seat_id == s && has_paid (status_of i.order_id db.orders))
        (λ i. ground (arith, same i.order_id)) db.items,
  )

  amounts_same :
      (ps : List Payment)
      → All (λ p. has_paid (status_of p.order_id db.orders) ≡ true) ps
      → All (λ p. p.amount ≡ sum_price (select (of_order p.order_id) db.items)) ps
      → All (λ p. p.amount ≡ sum_price (select (of_order p.order_id) (select keep db.items))) ps
  amounts_same [] h k = tt
  amounts_same (p ∷ ps) (h, t) (k, l) = (
    rw
        (items_kept p.order_id keep db.items
          (All-of _ (λ i e. ground (arith, h, e, dropped i)) db.items))
        k,
    amounts_same ps t l,
  )

  retired-IsConsistent :
      IsConsistent db
      → Distinct order_id orders
      → All (λ o. is_paid o.status ≡ is_charged db.payments o.id) orders
      → IsConsistent retired
  retired-IsConsistent v d c = record {
    orders_differ = d;
    seats_differ = v.seats_differ;
    one_item = Distinct-select item_seat keep db.items v.one_item;
    items_seated = All-select _ keep db.items v.items_seated;
    items_active =
        All-select_of _ _ keep (λ i e a. ground (arith, a, kept i e)) db.items v.items_active;
    sold_is_paid =
        All-imp _ _ (λ s a. ground (arith, a, paid_for_same s.id)) db.seats v.sold_is_paid;
    payments_paid =
        All-imp _ _ (λ p a. ground (arith, a, same p.order_id)) db.payments v.payments_paid;
    one_payment = v.one_payment;
    paid_is_charged = c;
    amounts = amounts_same db.payments v.payments_paid v.amounts;
  }

-- `cancelOrder`'s two statements.
pub cancel-IsConsistent :
    (o : ℕ) (db : Db)
    → IsConsistent db
    → is_open (status_of o db.orders) ≡ true
    → IsConsistent (set_status cancelled o (delete_items o db))
unfolding set_status delete_items
cancel-IsConsistent o db v h =
    retired-IsConsistent db _ (λ i. not (of_order o i))
      (λ i e. ground (arith, e, status_of-update cancelled o i.order_id db.orders))
      (λ k. ground (arith, h, status_of-update cancelled o k db.orders))
      (λ i e. ground (arith, h, e)) v
      (Distinct-update order_id _ _ (λ r. refl) db.orders v.orders_differ)
      (All-update_of _ _ (λ r. r.id == o) _
        (λ r e a. ground (arith, h, e, uncharged o db.orders db.payments v.payments_paid))
        (λ r e a. a) db.orders v.paid_is_charged)

pub expire-IsConsistent :
    (now : ℕ) (db : Db) → IsConsistent db → IsConsistent (expire_overdue now db).1
unfolding expire_overdue
expire-IsConsistent now db v =
    retired-IsConsistent db (lapse now db.orders) (λ i. not (of_overdue now db.orders i))
      (λ i e. ground (arith, e, status_of-lapse now i.order_id db.orders))
      (λ k. has_paid-lapse now k db.orders)
      (λ i e. ground (arith, e, overdue_unpaid now i.order_id db.orders v.orders_differ)) v
      (Distinct-update order_id _ _ (λ r. refl) db.orders v.orders_differ)
      (All-update_of _ _ (overdue now) _ (λ r e a. ground (arith, e, a)) (λ r e a. a) db.orders
        v.paid_is_charged)
