-- ===== src/Listings/Takings.antt =====
-- The prices of the seats that are SOLD against the payments.
use ticket_booking.Base.{
  ℕ, ◌≡◌, refl, ◌∙◌, sym, ap, Bool, true, false, ◌&&◌, some, List, [], ◌∷◌, arith, ◌==◌, ==→eq,
  if◌then◌else◌, any, select, All, All-of, All-imp, All-imp₂, All-select, Distinct, Distinct-select,
  Bool-cases, inl, inr,
}
use ticket_booking.Db.{
  Db, Seat, Order, OrderStatus, Item, Payment, is_sold, is_paid, sum_price, paid, pending, expired,
  cancelled,
}
use ticket_booking.Db.Consistent.{IsConsistent, seat_key, item_seat, paid_order, is_charged}
use ticket_booking.Db.Rows.{status_of, has_paid, paid_for}
use ticket_booking.Db.Priced.{IsPriced}
use ticket_booking.Listings.Rows.{sum_of}
use ticket_booking.Listings.Sums.{sum_of_join, sum_of-select_congr, sum_of-congr}

abbrev pub paid_item : List Order → Item → Bool
paid_item orders i = has_paid (status_of i.order_id orders)

sum_price_lem : (is : List Item) → sum_price is ≡ sum_of (λ i. i.price) is
sum_price_lem [] = refl
sum_price_lem (i ∷ is) = omega (arith, sum_price_lem is)

-- An order is charged exactly if it is paid.
unpaid_uncharged :
    (k : ℕ) (orders : List Order) (payments : List Payment)
    → All (λ p. has_paid (status_of p.order_id orders) ≡ true) payments
    → has_paid (status_of k orders) ≡ false
    → is_charged payments k ≡ false
unpaid_uncharged k orders [] h n = refl
unpaid_uncharged k orders (p ∷ ps) (h, t) n =
    ground (arith, h, n, ==→eq p.order_id k, unpaid_uncharged k orders ps t n)

paid_status : (s : OrderStatus) → has_paid (some s) ≡ true → is_paid s ≡ true
paid_status paid h = refl
paid_status pending h = cc
paid_status expired h = cc
paid_status cancelled h = cc

paid_charged :
    (k : ℕ) (orders : List Order) (payments : List Payment)
    → All (λ o. is_paid o.status ≡ is_charged payments o.id) orders
    → has_paid (status_of k orders) ≡ true
    → is_charged payments k ≡ true
paid_charged k [] payments h n = cc
paid_charged k (o ∷ os) payments (h, t) n = elim (Bool-cases (o.id == k)) [
  | inl e ↦ rw (← ==→eq o.id k e) (sym h ∙ paid_status o.status (ground (arith, e, n)))
  | inr e ↦ paid_charged k os payments t (ground (arith, e, n))
]

-- The price of the one item that may have the seat.
no_item :
    (s : ℕ) (is : List Item)
    → any (λ i. item_seat i == s) is ≡ false
    → sum_of (λ i. i.price) (select (λ i. i.seat_id == s) is) ≡ 0
no_item s [] h = refl
no_item s (i ∷ is) h = ground (arith, no_item s is)

item_price :
    (s c : ℕ) (is : List Item)
    → Distinct item_seat is
    → All (λ i. (i.seat_id == s) ≡ true → i.price ≡ c) is
    → sum_of (λ i. i.price) (select (λ i. i.seat_id == s) is)
      ≡ (if any (λ i. i.seat_id == s) is then c else 0)
item_price s c [] d h = refl
item_price s c (i ∷ is) (n, d) (h, t) =
    ground (arith, h, n, ==→eq i.seat_id s, no_item s is, item_price s c is d t)

sold_price :
    (seats : List Seat)
    → sum_of (λ s. s.price) (select (λ s. is_sold s.status) seats)
      ≡ sum_of (λ s. if is_sold s.status then s.price else 0) seats
sold_price [] = refl
sold_price (s ∷ ss) = ground (arith, sold_price ss)

paid_for-select :
    (orders : List Order) (s : ℕ) (is : List Item)
    → any (λ i. i.seat_id == s) (select (paid_item orders) is) ≡ paid_for orders is s
paid_for-select orders s [] = refl
paid_for-select orders s (i ∷ is) = ground (arith, paid_for-select orders s is)

no_price :
    (j c : ℕ) (seats : List Seat)
    → any (λ s. seat_key s == j) seats ≡ false
    → All (λ s. (j == s.id) ≡ true → c ≡ s.price) seats
no_price j c [] h = tt
no_price j c (s ∷ ss) h = (λ e. ground (arith, e, h), no_price j c ss (ground (arith, h)))

none_priced :
    (j c : ℕ) (seats : List Seat)
    → any (λ s. seat_key s == j) seats ≡ false
    → any (λ s. s.id == j && s.price == c) seats ≡ false
none_priced j c [] h = refl
none_priced j c (s ∷ ss) h = ground (arith, h, none_priced j c ss)

select_every : (p : Item → Bool) (is : List Item) → All (λ i. p i ≡ true) is → select p is ≡ is
select_every p [] h = refl
select_every p (i ∷ is) (h, t) = ground (arith, h, select_every p is t)

-- Where ids differ, the one seat with the id has the price.
every_price :
    (j c : ℕ) (seats : List Seat)
    → Distinct seat_key seats
    → any (λ s. s.id == j && s.price == c) seats ≡ true
    → All (λ s. (j == s.id) ≡ true → c ≡ s.price) seats
every_price j c [] d h = tt
every_price j c (s ∷ ss) (n, d) h = elim (Bool-cases (s.id == j)) [
  | inl e ↦
      let away : any (λ x. seat_key x == j) ss ≡ false = rw (← ==→eq s.id j e) n in
      (λ _. ground (arith, e, h, ==→eq s.price c, none_priced j c ss away), no_price j c ss away)
  | inr e ↦ (λ q. ground (arith, e, q), every_price j c ss d (ground (arith, e, h)))
]

All-swap :
    {A B : Type 0} (P : A → B → Type 0) (xs : List A) (ys : List B)
    → All (λ y. All (λ x. P x y) xs) ys
    → All (λ x. All (λ y. P x y) ys) xs
All-swap P xs [] h = All-of _ (λ x. tt) xs
All-swap P xs (y ∷ ys) (h, t) = All-imp₂ _ _ _ (λ x a b. (a, b)) xs h (All-swap P xs ys t)

-- What the seats that are SOLD cost, and what has been paid.
abbrev pub takings : Db → ℕ
takings db = sum_of (λ s. s.price) (select (λ s. is_sold s.status) db.seats)

abbrev pub collected : Db → ℕ
collected db = sum_of (λ p. p.amount) db.payments

module _ (db : Db) (v : IsConsistent db) (h : IsPriced db) where
  abbrev paid_items : List Item
  paid_items = select (paid_item db.orders) db.items

  charged_paid :
      (k : ℕ) → any (λ p. paid_order p == k) db.payments ≡ has_paid (status_of k db.orders)
  charged_paid k = elim (Bool-cases (has_paid (status_of k db.orders))) [
    | inl e ↦ paid_charged k db.orders db.payments v.paid_is_charged e ∙ sym e
    | inr e ↦ unpaid_uncharged k db.orders db.payments v.payments_paid e ∙ sym e
  ]

  takings_lem : takings db ≡ sum_of (λ i. i.price) paid_items
  takings_lem =
      sold_price db.seats
      ∙ sum_of-congr _ _ db.seats (
          All-imp₂ _ _ _
            (λ s sold priced.
              rw (sold, ← paid_for-select db.orders s.id db.items)
                (sym (
                  item_price s.id s.price paid_items
                    (Distinct-select item_seat (paid_item db.orders) db.items v.one_item)
                    (All-select _ (paid_item db.orders) db.items priced))))
            db.seats v.sold_is_paid
            (All-swap (λ s i. (i.seat_id == s.id) ≡ true → i.price ≡ s.price) db.seats db.items
              (All-imp _ _ (λ i k. every_price i.seat_id i.price db.seats v.seats_differ k) db.items
                h.items_priced)))
      ∙ sum_of_join seat_key item_seat (λ i. i.price) db.seats paid_items v.seats_differ
      ∙ ap (sum_of (λ i. i.price))
          (select_every _ paid_items (All-select _ (paid_item db.orders) db.items v.items_seated))

  collected_lem : collected db ≡ sum_of (λ i. i.price) paid_items
  collected_lem =
      sum_of-congr _ _ db.payments (All-imp _ _ (λ p e. e ∙ sum_price_lem _) db.payments v.amounts)
      ∙ sum_of_join paid_order (λ i. i.order_id) (λ i. i.price) db.payments db.items v.one_payment
      ∙ sum_of-select_congr _ _ _ db.items (All-of _ (λ i. charged_paid i.order_id) db.items)

  pub takings-collected : takings db ≡ collected db
  takings-collected = takings_lem ∙ sym collected_lem
