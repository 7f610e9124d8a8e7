-- ===== src/Server/Tables.antt =====
-- The tables after a booking, and after the payment of its order.
use mathlib.Core.List.{append-nil}
use ticket_booking.Base.{
  ℕ, ◌<◌, String, ◌≡◌, refl, ◌∙◌, ap, true, false, List, [], ◌∷◌, any, ◌==◌, ==→eq, length, select,
  arith, inl, inr, All, All-imp, All-map, select-append, select_none,
}
use ticket_booking.Db.{Db, Order, Item, of_order, new_items, item_for}
use ticket_booking.Db.Rows.{status_of_unlisted}
use ticket_booking.Db.Consistent.{IsConsistent}
use ticket_booking.Db.Consistent.Insert.{with_booking}
use ticket_booking.World.{World, Response, charged}
use ticket_booking.Payment.{pay_order}
use ticket_booking.Payment.Effect.{Charged, is_charge}
use ticket_booking.Payment.Answer.{Settled, pay_order_effect, Charged-is_open}
use ticket_booking.Db.Consistent.Pay.{with_payment}
use ticket_booking.World.{Env}
use ticket_booking.Db.{paid}
use ticket_booking.Db.Rows.{status_of, has_paid, is_open, status_of-update}
use ticket_booking.Server.{Setup}

pub with_payment_paid :
    (db : Db) (o : ℕ) (key : String) (amount : ℕ)
    → is_open (status_of o db.orders) ≡ true
    → has_paid (status_of o (with_payment db o key amount).orders) ≡ true
unfolding with_payment
with_payment_paid db o key amount h = ground (arith, h, status_of-update paid o o db.orders)

pub with_payment_items :
    (db : Db) (o : ℕ) (key : String) (amount : ℕ) → (with_payment db o key amount).items ≡ db.items
unfolding with_payment
with_payment_items db o key amount = refl

-- The items of the order that a booking has just placed.
module _ (db : Db) (v : IsConsistent db) (fresh user expires_at event : ℕ) (ids : List ℕ)
    (new : any (λ (o : Order). o.id == fresh) db.orders ≡ false) where
  own_items :
      (seats : List Item)
      → All (λ i. of_order fresh i ≡ true) seats
      → select (of_order fresh) seats ≡ seats
  own_items [] h = refl
  own_items (i ∷ is) (h, t) = ground (arith, h, own_items is t)

  no_old_items : select (of_order fresh) db.items ≡ []
  no_old_items = select_none (of_order fresh) db.items (
      All-imp _ _
        (λ i a. ground (arith, a, ==→eq i.order_id fresh, status_of_unlisted fresh db.orders new))
        db.items v.items_active)

  pub booked_items :
      select (of_order fresh) (with_booking db fresh user expires_at event ids).items
      ≡ new_items fresh ids event db.seats
  unfolding new_items
  booked_items =
      select-append (of_order fresh) (new_items fresh ids event db.seats) db.items
      ∙ rw
          (
            no_old_items,
            own_items (new_items fresh ids event db.seats)
                (All-map (λ i. of_order fresh i ≡ true) (item_for fresh) (λ s. ground arith) _),
          )
          (append-nil (new_items fresh ids event db.seats))

  pub booked_some :
      0 < length (new_items fresh ids event db.seats)
      → 0 < length (select (of_order fresh) (with_booking db fresh user expires_at event ids).items)
  booked_some n = rw booked_items n

module _ (x : Setup) (user : String) where
  -- The order is paid and keeps its items, if the payment is answered with a charge.
  pub paid_tables :
      (env : Env) (id key : String) (amount : ℕ) (w : World)
      → IsConsistent w.db
      → (pay_order x.uuids env user id key w).0 ≡ record { status = 200; body = charged id amount }
      → let w' = (pay_order x.uuids env user id key w).1 in
        (has_paid (status_of (x.uuids.value id) w'.db.orders) ≡ true) × (w'.db.items ≡ w.db.items)
  paid_tables env id key amount w c =
      go (pay_order x.uuids env user id key w) (pay_order_effect x.uuids env user id key w)
    where
      paid_lem :
          (db' : Db)
          → Charged x.uuids env user id key w.db db'
          → (has_paid (status_of (x.uuids.value id) db'.orders) ≡ true) × (db'.items ≡ w.db.items)
      paid_lem db' p =
          let open_ = Charged-is_open x.uuids env user id key w.db db' p c in
          rw p.effect (
            with_payment_paid w.db (x.uuids.value id) key _ open_,
            with_payment_items w.db (x.uuids.value id) key _,
          )

      go :
          (a : Response × World)
          → Settled x.uuids env user id key w a
          → a.0 ≡ record { status = 200; body = charged id amount }
          → (has_paid (status_of (x.uuids.value id) a.1.db.orders) ≡ true)
            × (a.1.db.items ≡ w.db.items)
      go (resp, w') (inl (n, same)) e = let charge = ap (λ (y : Response). is_charge y.body) e in cc
      go (resp, w') (inr (p, q)) e = paid_lem w'.db p
