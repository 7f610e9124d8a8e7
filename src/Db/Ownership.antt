-- ===== src/Db/Ownership.antt =====
-- A seat of a paid order, through every change that the handlers make to the tables.
use mathlib.Core.Bool.{not}
use ticket_booking.Base.{
  ℕ, String, ◌≡◌, true, false, ◌&&◌, List, arith, ◌==◌, any, any-append, any-select, All-of,
}
use ticket_booking.Db.{
  Db, Order, Item, paid, cancelled, of_order, of_overdue, orders_seat, new_items, set_status,
  delete_items, expire_overdue,
}
use ticket_booking.Db.Rows.{
  status_of, status_of-update, status_of_unlisted, has_paid-lapse, overdue_unpaid, has_paid,
  is_open,
}
use ticket_booking.Db.Consistent.{IsConsistent}
use ticket_booking.Db.Consistent.Insert.{with_booking}
use ticket_booking.Db.Consistent.Pay.{with_payment}

-- The order is paid and has the seat.
pub record IsOwner (o s : ℕ) (db : Db) : Type 0 where
  pub is_paid : has_paid (status_of o db.orders) ≡ true
  pub has_seat : orders_seat o s db.items ≡ true

module _ (o s : ℕ) (db : Db) (h : IsOwner o s db) where
  pub with_booking-IsOwner :
      (fresh user expires_at event : ℕ) (ids : List ℕ)
      → any (λ (r : Order). r.id == fresh) db.orders ≡ false
      → IsOwner o s (with_booking db fresh user expires_at event ids)
  with_booking-IsOwner fresh user expires_at event ids n = record {
    is_paid = ground (arith, h.is_paid, n, status_of_unlisted o db.orders);
    has_seat = ground (
      arith,
      h.has_seat,
      any-append (λ (i : Item). i.order_id == o && i.seat_id == s)
          (new_items fresh ids event db.seats) db.items,
    );
  }

  pub with_payment-IsOwner :
      (k : ℕ) (key : String) (amount : ℕ) → IsOwner o s (with_payment db k key amount)
  unfolding with_payment
  with_payment-IsOwner k key amount = record {
    is_paid = ground (arith, h.is_paid, status_of-update paid k o db.orders);
    has_seat = h.has_seat;
  }

  pub cancel-IsOwner :
      (k : ℕ)
      → is_open (status_of k db.orders) ≡ true
      → IsOwner o s (set_status cancelled k (delete_items k db))
  unfolding set_status delete_items
  cancel-IsOwner k p = record {
    is_paid = ground (arith, h.is_paid, p, status_of-update cancelled k o db.orders);
    has_seat = ground (
      arith,
      h.has_seat,
      any-select (λ i. not (of_order k i)) (λ i. i.order_id == o && i.seat_id == s) db.items
          (All-of _ (λ i e. ground (arith, e, p, h.is_paid)) db.items),
    );
  }

  pub expire-IsOwner : (now : ℕ) → IsConsistent db → IsOwner o s (expire_overdue now db).1
  unfolding expire_overdue
  expire-IsOwner now v = record {
    is_paid = ground (arith, h.is_paid, has_paid-lapse now o db.orders);
    has_seat = ground (
      arith,
      h.has_seat,
      any-select (λ i. not (of_overdue now db.orders i)) (λ i. i.order_id == o && i.seat_id == s)
          db.items
          (All-of _
            (λ i e. ground (arith, e, h.is_paid, overdue_unpaid now o db.orders v.orders_differ))
            db.items),
    );
  }
