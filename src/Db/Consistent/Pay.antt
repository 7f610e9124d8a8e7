-- ===== src/Db/Consistent/Pay.antt =====
-- The statements of `payOrder`, taken together, keep the tables consistent; and on consistent tables
-- the optimistic confirm finds every seat of a pending order still AVAILABLE.
use ticket_booking.Base.{
  ℕ, suc, String, ◌≡◌, refl, true, false, ◌&&◌, ◌||◌, List, [], ◌∷◌, arith, ◌==◌, length, select,
  update, any, All, any-update, All-imp, All-of, ap, inl, inr, Bool-cases, any_imp, select_none,
  length-select_or, select-congr, one_key, Distinct-update, Distinct,
}
use ticket_booking.Db.{
  Db, Order, Item, Seat, sold, paid, is_paid, is_sold, succeeded, of_order, orders_seat,
  confirmable, confirm_seats, sum_price,
}
use ticket_booking.Db.Rows.{status_of, status_of-update, has_paid, is_open, paid_for}
use ticket_booking.Db.Consistent.{IsConsistent, order_id, seat_key, item_seat, is_charged}
use ticket_booking.Db.Consistent.Insert.{uncharged}

module _ (db : Db) (o : ℕ) where
  abbrev pub as_paid : List Order
  as_paid = update (λ r. r.id == o) (λ r. record r { status = paid }) db.orders

  abbrev pub as_sold : List Seat
  as_sold = update (confirmable o db.items) (λ s. record s { status = sold }) db.seats

  -- The rows after a payment under `key`, of the amount `amount`.
  unfoldable pub with_payment : String → ℕ → Db
  with_payment key amount = record db {
    orders = as_paid;
    seats = as_sold;
    payments =
        record { order_id = o; idempotency_key = key; status = succeeded; amount = amount }
        ∷ db.payments;
  }

  paid_for_after :
      is_open (status_of o db.orders) ≡ true
      → (s : ℕ) (is : List Item)
      → paid_for as_paid is s ≡ (orders_seat o s is || paid_for db.orders is s)
  paid_for_after h s [] = refl
  paid_for_after h s (i ∷ is) =
      ground (arith, status_of-update paid o i.order_id db.orders, paid_for_after h s is)

  sold_after :
      is_open (status_of o db.orders) ≡ true
      → (seats : List Seat) → All (λ s. is_sold s.status ≡ paid_for db.orders db.items s.id) seats
      → All
          (λ s. is_sold s.status ≡ paid_for as_paid db.items s.id)
          (update (confirmable o db.items) (λ s. record s { status = sold }) seats)
  sold_after h [] a = tt
  sold_after h (s ∷ seats) (a, t) =
      (ground (arith, a, paid_for_after h s.id db.items), sold_after h seats t)

  charged_after :
      (orders : List Order)
      → All (λ r. is_paid r.status ≡ is_charged db.payments r.id) orders
      → (key : String) (amount : ℕ)
      → All
          (λ r. is_paid r.status ≡ is_charged (with_payment key amount).payments r.id)
          (update (λ r. r.id == o) (λ r. record r { status = paid }) orders)
  unfolding with_payment
  charged_after [] a key amount = tt
  charged_after (r ∷ rs) (a, t) key amount = (ground (arith, a), charged_after rs t key amount)

  pub with_payment-IsConsistent :
      (key : String) (amount : ℕ)
      → IsConsistent db
      → is_open (status_of o db.orders) ≡ true
      → amount ≡ sum_price (select (of_order o) db.items)
      → IsConsistent (with_payment key amount)
  unfolding with_payment
  with_payment-IsConsistent key amount v h e = record {
    orders_differ = Distinct-update order_id _ _ (λ r. refl) db.orders v.orders_differ;
    seats_differ = Distinct-update seat_key _ _ (λ s. refl) db.seats v.seats_differ;
    one_item = v.one_item;
    items_seated =
        All-imp _ _
          (λ i k. ground (
            arith,
            k,
            any-update (confirmable o db.items) (λ s. seat_key s == i.seat_id)
                (λ s. record s { status = sold }) (λ s. refl) db.seats,
          ))
          db.items v.items_seated;
    items_active =
        All-imp _ _ (λ i k. ground (arith, k, status_of-update paid o i.order_id db.orders))
          db.items v.items_active;
    sold_is_paid = sold_after h db.seats v.sold_is_paid;
    payments_paid = (
      ground (arith, status_of-update paid o o db.orders),
      All-imp _ _ (λ p k. ground (arith, k, status_of-update paid o p.order_id db.orders))
          db.payments v.payments_paid,
    );
    one_payment =
        (ground (arith, uncharged o db.orders db.payments v.payments_paid), v.one_payment);
    paid_is_charged = charged_after db.orders v.paid_is_charged key amount;
    amounts = (e, v.amounts);
  }

-- A seat has one item, so a seat of a pending order is not in a paid order.
unpaid_seat :
    (o : ℕ) (orders : List Order) (items : List Item) (s : ℕ)
    → Distinct item_seat items
    → is_open (status_of o orders) ≡ true
    → orders_seat o s items ≡ true
    → paid_for orders items s ≡ false
unpaid_seat o orders [] s d h t = refl
unpaid_seat o orders (i ∷ is) s (f, d) h t = ground (
  arith,
  f,
  any_imp (λ j. item_seat j == i.seat_id) (λ j. j.order_id == o && j.seat_id == i.seat_id)
      (λ j e. ground (arith, e)) is,
  any_imp (λ j. item_seat j == i.seat_id)
      (λ j. j.seat_id == i.seat_id && has_paid (status_of j.order_id orders))
      (λ j e. ground (arith, e)) is,
  unpaid_seat o orders is s d h,
)

-- The seats of an order are as many as its items.
module _ (o : ℕ) (seats : List Seat) (ds : Distinct seat_key seats) where
  one_more_seat :
      (i : Item) (is : List Item)
      → (i.order_id == o) ≡ true
      → any (λ j. item_seat j == i.seat_id) is ≡ false
      → any (λ s. seat_key s == i.seat_id) seats ≡ true
      → length (select (λ s. orders_seat o s.id (i ∷ is)) seats)
        ≡ suc (length (select (λ s. orders_seat o s.id is) seats))
  one_more_seat i is e f l = omega (
    arith,
    ap length (
        select-congr (λ s. orders_seat o s.id (i ∷ is))
          (λ s. seat_key s == i.seat_id || orders_seat o s.id is) seats
          (All-of _ (λ s. ground (arith, e)) seats)),
    length-select_or (λ s. seat_key s == i.seat_id) (λ s. orders_seat o s.id is) seats
        (All-of _
          (λ s. ground (
            arith,
            any_imp (λ j. item_seat j == i.seat_id) (λ j. j.order_id == o && j.seat_id == i.seat_id)
                (λ j k. ground (arith, k)) is f,
          ))
          seats),
    one_key seat_key i.seat_id seats ds l,
  )

  length-seats :
      (items : List Item)
      → Distinct item_seat items
      → All (λ i. any (λ s. seat_key s == i.seat_id) seats ≡ true) items
      → length (select (λ s. orders_seat o s.id items) seats) ≡ length (select (of_order o) items)
  length-seats [] di l =
      ap length (select_none {A = Seat} (λ s. false) seats (All-of _ (λ s. refl) seats))
  length-seats (i ∷ is) (f, d) (l, t) = elim (Bool-cases (i.order_id == o)) [
    | inl e ↦ rw (one_more_seat i is e f l, length-seats is d t) (rw e)
    | inr e ↦ rw e (length-seats is d t)
  ]

-- In consistent tables the optimistic confirm of `payOrder` on a PENDING order touches exactly as many
-- rows as the order has items: none of its seats can be SOLD to another order.
pub confirm_finds_all :
    (o : ℕ) (db : Db)
    → IsConsistent db
    → is_open (status_of o db.orders) ≡ true
    → (confirm_seats o db).0 ≡ length (select (of_order o) db.items)
unfolding confirm_seats
confirm_finds_all o db v h =
    rw (← length-seats o db.seats v.seats_differ db.items v.one_item v.items_seated) (
      ap length (
        select-congr (confirmable o db.items) (λ s. orders_seat o s.id db.items) db.seats
          (All-imp _ _
            (λ s e. ground (arith, e, unpaid_seat o db.orders db.items s.id v.one_item h)) db.seats
            v.sold_is_paid)))
