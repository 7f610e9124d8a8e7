-- ===== src/Listings/Mine.antt =====
-- What the page of a customer's orders shows.
use ticket_booking.Base.{
  ℕ, zero, suc, String, ◌≡◌, refl, ◌∙◌, sym, ap, select_none, true, false, ◌&&◌, Option, none, some,
  List, [], ◌∷◌, arith, ◌==◌, ==→eq, any, select, All, All-imp, All-imp₂, if_cases, All-map_of,
  All-select_of, Distinct,
}
use ticket_booking.Db.{Db, Order, Payment, is_paid, of_order, sum_price}
use ticket_booking.Db.Consistent.{IsConsistent, order_id, is_charged}
use ticket_booking.Db.Rows.{status_of, is_active}
use ticket_booking.World.{World, Uuids, failed}
use ticket_booking.Listings.{take, arrived}
use ticket_booking.Listings.Rows.{Query, page, denied, page_of_rows}
use ticket_booking.Listings.Orders.{Collation, MyOrder, order_row, orders_of, list_orders}
use ticket_booking.Listings.Revenue.{shown}

-- What the page relies on of the order by time and of the aggregates: they add no rows.
pub record IsCollation (c : Collation) : Type 1 where
  pub newest-All :
      (P : Order → Type 0) (rows : List Order) → All P rows → All P (c.newest_first rows)
  pub no_seats : c.by_seat_no [] ≡ []
  pub no_names : c.greatest [] ≡ none

-- A row of the page of a user.
pub record IsMine (user : ℕ) (db : Db) (r : MyOrder) : Type 0 where
  pub is_own : any (λ o. o.id == r.id && o.user_id == user) db.orders ≡ true
  pub status_is : status_of r.id db.orders ≡ some r.status
  -- expired or cancelled: nothing is left of it
  pub released :
      is_active (some r.status) ≡ false
      → (r.amount ≡ 0) × (r.seat_nos ≡ "") × (r.event_name ≡ none) × (r.series_name ≡ none)
  pub charged :
      is_paid r.status ≡ true
      → any (λ p. p.order_id == r.id && p.amount == r.amount) db.payments ≡ true

module _ {A : Type 0} (P : A → Type 0) where
  All-take : (n : ℕ) (xs : List A) → All P xs → All P (take n xs)
  All-take zero xs h = tt
  All-take (suc n) [] h = tt
  All-take (suc n) (x ∷ xs) (h, t) = (h, All-take n xs t)

  All-arrived : (o : Option ℕ) (xs : List A) → All P xs → All P (arrived o xs)
  All-arrived none xs h = h
  All-arrived (some n) xs h = All-take n xs h

  pub All-shown : (q : Query) (rows : List A) → All P rows → All P (shown (page_of_rows q rows))
  unfolding page_of_rows
  All-shown q rows h =
      if_cases (λ pg. All P (shown pg)) (failed q.query) _ _ (λ _. tt)
        (λ _.
          if_cases (λ pg. All P (shown pg))
            (failed q.scan && any (λ _. true) (arrived q.arrive rows)) (denied 500 "db_error")
            (page (arrived q.arrive rows)) (λ _. tt) (λ _. All-arrived q.arrive rows h))

other_id :
    (k : ℕ) (orders : List Order)
    → any (λ r. order_id r == k) orders ≡ false
    → All (λ o. (k == o.id) ≡ false) orders
other_id k [] h = tt
other_id k (o ∷ os) h = (ground (arith, h), other_id k os (ground (arith, h)))

-- The orders themselves, each under its own id.
own_row :
    (orders : List Order)
    → Distinct order_id orders
    → All
        (λ o.
          (status_of o.id orders ≡ some o.status)
          × (any (λ r. r.id == o.id && r.user_id == o.user_id) orders ≡ true))
        orders
own_row [] d = tt
own_row (o ∷ os) (n, d) = (
  (ground arith, ground arith),
  All-imp₂ _ _ _ (λ x (s, k) e. (ground (arith, s, e), ground (arith, k, e))) os (own_row os d)
      (other_id o.id os n),
)

charged_amount :
    (k amount : ℕ) (payments : List Payment)
    → All (λ p. p.order_id ≡ k → p.amount ≡ amount) payments
    → is_charged payments k ≡ true
    → any (λ p. p.order_id == k && p.amount == amount) payments ≡ true
charged_amount k amount [] h e = e
charged_amount k amount (p ∷ ps) (h, t) e =
    ground (arith, h, e, ==→eq p.order_id k, charged_amount k amount ps t)

module _ (c : Collation) (h : IsCollation c) (user : ℕ) (db : Db) (v : IsConsistent db) where
  unpaid_items :
      (k : ℕ) → is_active (status_of k db.orders) ≡ false → select (of_order k) db.items ≡ []
  unpaid_items k n =
      select_none (of_order k) db.items
        (All-imp _ _ (λ i a. ground (arith, a, n, ==→eq i.order_id k)) db.items v.items_active)

  order_row-IsMine :
      (o : Order)
      → (status_of o.id db.orders ≡ some o.status)
        × (any (λ r. r.id == o.id && r.user_id == o.user_id) db.orders ≡ true)
      → is_paid o.status ≡ is_charged db.payments o.id
      → o.user_id ≡ user
      → IsMine user db (order_row c db o)
  order_row-IsMine o (s, k) paid mine = record {
    is_own = rw (← mine) k;
    status_is = s;
    released = λ n.
        let gone = unpaid_items o.id (rw s n) in
        rw gone (refl, rw h.no_seats refl, h.no_names, h.no_names);
    charged = λ e.
        charged_amount o.id (sum_price (select (of_order o.id) db.items)) db.payments
          (All-imp _ _ (λ p a q. a ∙ ap (λ (k : ℕ). sum_price (select (of_order k) db.items)) q)
            db.payments v.amounts)
          (sym paid ∙ e);
  }

  orders_of-IsMine : All (IsMine user db) (orders_of c user db)
  orders_of-IsMine =
      All-map_of (IsMine user db) (λ o. IsMine user db (order_row c db o)) (order_row c db)
        (λ o k. k) _
        (All-take _ 20 _ (
          h.newest-All _ _ (
            All-select_of _ _ (λ o. o.user_id == user)
              (λ o q (s, paid). order_row-IsMine o s paid (==→eq o.user_id user q)) db.orders
              (All-imp₂ _ _ (λ o. (_ × _)) (λ o s paid. (s, paid)) db.orders
                (own_row db.orders v.orders_differ) v.paid_is_charged))))

-- On consistent tables, whatever calls fail, each row of a customer's page is an order of his own, with
-- its status. A paid one shows as its amount exactly what a payment charged for it. One that has
-- expired or was cancelled shows no amount, no seats and no names. It is assumed that the order by time
-- and the aggregates make up no rows.
pub list_orders-IsMine :
    (c : Collation)
    → IsCollation c
    → (u : Uuids) (q : Query) (user : String) (w : World) → IsConsistent w.db
    → All (IsMine (u.value user) w.db) (shown (list_orders c u q user w))
unfolding list_orders
list_orders-IsMine c h u q user w v =
    All-shown (IsMine (u.value user) w.db) q (orders_of c (u.value user) w.db)
      (orders_of-IsMine c h (u.value user) w.db v)
