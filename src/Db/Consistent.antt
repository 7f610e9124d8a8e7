-- ===== src/Db/Consistent.antt =====
-- The consistency of the tables, and that every statement of the handlers preserves it.
pub mod Insert
pub mod Pay
pub mod Delete
use ticket_booking.Base.{
  ℕ, String, ◌≡◌, Bool, true, false, ◌&&◌, Option, some, none, List, ◌==◌, select, any, All,
  Distinct,
}
use ticket_booking.Db.{Db, Seat, Order, Item, Payment, is_sold, is_paid, of_order, sum_price}
use ticket_booking.Db.Rows.{status_of, has_paid, is_active, paid_for}

abbrev pub order_id : Order → ℕ
order_id o = o.id

abbrev pub seat_key : Seat → ℕ
seat_key s = s.id

abbrev pub item_seat : Item → ℕ
item_seat i = i.seat_id

abbrev pub paid_order : Payment → ℕ
paid_order p = p.order_id

abbrev pub is_charged : List Payment → ℕ → Bool
is_charged payments o = any (λ p. p.order_id == o) payments

pub record IsConsistent (db : Db) : Type 0 where
  -- the primary keys, and the unique index on order_items(seat_id)
  pub orders_differ : Distinct order_id db.orders
  pub seats_differ : Distinct seat_key db.seats
  pub one_item : Distinct item_seat db.items
  -- the foreign key order_items(seat_id)
  pub items_seated : All (λ i. any (λ s. seat_key s == i.seat_id) db.seats ≡ true) db.items
  -- expired and cancelled orders have no items
  pub items_active : All (λ i. is_active (status_of i.order_id db.orders) ≡ true) db.items
  -- a seat is SOLD exactly if a paid order has it
  pub sold_is_paid : All (λ s. is_sold s.status ≡ paid_for db.orders db.items s.id) db.seats
  -- a payment is for a paid order, one for each, of the price of its items
  pub payments_paid : All (λ p. has_paid (status_of p.order_id db.orders) ≡ true) db.payments
  pub one_payment : Distinct paid_order db.payments
  pub paid_is_charged : All (λ o. is_paid o.status ≡ is_charged db.payments o.id) db.orders
  pub amounts : All (λ p. p.amount ≡ sum_price (select (of_order p.order_id) db.items)) db.payments
