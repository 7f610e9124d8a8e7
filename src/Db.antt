-- ===== src/Db.antt =====
-- The tables of db/001_init.sql that the booking handlers read and write, and the statements that
-- api/handlers.go and api/main.go run on them. An id is the 128-bit value of its uuid, money is in
-- cents (`numeric(10,2)`), a time is in milliseconds. The order of the rows of a table is
-- immaterial: new rows stand in front. The items' and payments' own ids, which no statement reads,
-- are left out.
pub mod Rows
pub mod Consistent
pub mod Ownership
pub mod Priced
pub mod Requested
use ticket_booking.Base.{
  ℕ, ◌+◌, String, ◌≡◌, Bool, true, false, ◌&&◌, ◌||◌, Option, none, some, List, [], ◌∷◌, ◌++◌, map,
  ltb, ◌==◌, str_eq, if◌then◌else◌, length, select, first, update, any,
}
use mathlib.Core.Bool.{not}

pub record User : Type 0 where
  pub id : ℕ
  pub email : String
  pub password_hash : String
  pub is_admin : Bool

pub data EventStatus : Type 0 where
  on_sale closed : EventStatus

pub record Event : Type 0 where
  pub id : ℕ
  pub name : String
  pub starts_at : ℕ
  pub sale_opens_at : ℕ
  pub status : EventStatus
  pub max_seats_per_order : ℕ
  pub internal : Bool
  pub series_id : Option ℕ
  pub series_name : Option String
  pub venue : Option String

pub data SeatStatus : Type 0 where
  available sold : SeatStatus

pub record Seat : Type 0 where
  pub id : ℕ
  pub event_id : ℕ
  pub seat_no : String
  pub status : SeatStatus
  pub price : ℕ

pub data OrderStatus : Type 0 where
  pending paid expired cancelled : OrderStatus

pub record Order : Type 0 where
  pub id : ℕ
  pub user_id : ℕ
  pub status : OrderStatus
  pub expires_at : ℕ

pub record Item : Type 0 where
  pub order_id : ℕ
  pub seat_id : ℕ
  pub price : ℕ

pub data PaymentStatus : Type 0 where
  succeeded failed : PaymentStatus

pub record Payment : Type 0 where
  pub order_id : ℕ
  pub idempotency_key : String
  pub status : PaymentStatus
  pub amount : ℕ

pub record Db : Type 0 where
  pub users : List User
  pub events : List Event
  pub seats : List Seat
  pub orders : List Order
  pub items : List Item
  pub payments : List Payment

abbrev pub is_available : SeatStatus → Bool
is_available available = true
is_available sold = false

abbrev pub is_sold : SeatStatus → Bool
is_sold available = false
is_sold sold = true

abbrev pub is_pending : OrderStatus → Bool
is_pending pending = true
is_pending _ = false

abbrev pub is_paid : OrderStatus → Bool
is_paid paid = true
is_paid _ = false

abbrev pub is_on_sale : EventStatus → Bool
is_on_sale on_sale = true
is_on_sale closed = false

-- x = ANY(ids)
abbrev pub one_of : List ℕ → ℕ → Bool
one_of ids x = any (λ i. x == i) ids

-- The unique index on `order_items(seat_id)`: is there a row for the seat?
abbrev pub taken : ℕ → List Item → Bool
taken s = any (λ i. i.seat_id == s)

-- The rows of an order.
abbrev pub of_order : ℕ → Item → Bool
of_order o i = i.order_id == o

-- Does the order have the seat?
abbrev pub orders_seat : ℕ → ℕ → List Item → Bool
orders_seat o s = any (λ i. i.order_id == o && i.seat_id == s)

abbrev pub sum_price : List Item → ℕ
sum_price [] = 0
sum_price (i ∷ is) = i.price + sum_price is

-- SELECT … FROM orders WHERE id = $1
abbrev pub find_order : ℕ → List Order → Option Order
find_order o = first (λ r. r.id == o)

-- Is there a row of `users` with the id?
abbrev pub has_account : ℕ → List User → Bool
has_account user = any (λ x. x.id == user)

-- What an INSERT or UPDATE may end in: the rows it touched, or a breach of a constraint: a
-- unique index, a foreign key, the range of numeric(10,2).
pub data Written (A : Type 0) : Type 0 where
  rows : A → Db → Written A
  violation : Written A

-- INSERT INTO orders (user_id, status, expires_at) VALUES ($1, 'PENDING', $2), under a fresh id;
-- `orders.user_id` REFERENCES users(id).
unfoldable pub insert_order : ℕ → ℕ → ℕ → Db → Written (Unit {0})
insert_order fresh user expires_at db =
    if any (λ o. o.id == fresh) db.orders || not (has_account user db.users)
    then violation
    else rows tt (record db {
      orders =
          record { id = fresh; user_id = user; status = pending; expires_at = expires_at }
          ∷ db.orders;
    })

-- SELECT $1, s.id, s.price FROM seats s WHERE s.id = ANY($2) AND s.event_id = $3
-- AND s.status = 'AVAILABLE'
abbrev pub bookable : List ℕ → ℕ → Seat → Bool
bookable ids event s = one_of ids s.id && s.event_id == event && is_available s.status

abbrev pub item_for : ℕ → Seat → Item
item_for order s = record { order_id = order; seat_id = s.id; price = s.price }

unfoldable pub new_items : ℕ → List ℕ → ℕ → List Seat → List Item
new_items order ids event seats = map (item_for order) (select (bookable ids event) seats)

-- INSERT INTO order_items … SELECT …, all rows or none.
unfoldable pub insert_items : ℕ → List ℕ → ℕ → Db → Written ℕ
unfolding new_items
insert_items order ids event db =
    let added = new_items order ids event db.seats in
    if any (λ i. taken i.seat_id db.items) added
    then violation
    else rows (length added) (record db { items = added ++ db.items })

-- SELECT count(*) FROM order_items oi JOIN orders o ON o.id = oi.order_id
-- WHERE o.user_id = $1 AND o.status = 'PENDING' AND o.expires_at > now()
abbrev pub holds_for : ℕ → ℕ → Item → Order → Bool
holds_for user now i o =
    o.id == i.order_id && o.user_id == user && is_pending o.status && ltb now o.expires_at

unfoldable pub held_now : ℕ → ℕ → Db → ℕ
held_now user now db = length (select (λ i. any (holds_for user now i) db.orders) db.items)

-- UPDATE seats SET status = 'SOLD' WHERE id IN (SELECT seat_id FROM order_items WHERE order_id = $1)
-- AND status = 'AVAILABLE', with the number of rows.
abbrev pub confirmable : ℕ → List Item → Seat → Bool
confirmable o items s = orders_seat o s.id items && is_available s.status

unfoldable pub confirm_seats : ℕ → Db → ℕ × Db
confirm_seats o db = (
  length (select (confirmable o db.items) db.seats),
  record db { seats = update (confirmable o db.items) (λ s. record s { status = sold }) db.seats },
)

-- INSERT INTO payments (order_id, idempotency_key, status, amount) VALUES ($1, $2, 'SUCCEEDED', $3);
-- the amount, in cents, is a numeric(10,2).
unfoldable pub insert_payment : ℕ → String → ℕ → Db → Written (Unit {0})
insert_payment o key amount db =
    if any (λ p. str_eq p.idempotency_key key) db.payments || not (ltb amount 10000000000)
    then violation
    else rows tt (record db {
      payments =
          record { order_id = o; idempotency_key = key; status = succeeded; amount = amount }
          ∷ db.payments;
    })

-- UPDATE orders SET status = $2 WHERE id = $1
unfoldable pub set_status : OrderStatus → ℕ → Db → Db
set_status status o db = record db {
  orders = update (λ r. r.id == o) (λ r. record r { status = status }) db.orders;
}

-- DELETE FROM order_items WHERE order_id = $1
unfoldable pub delete_items : ℕ → Db → Db
delete_items o db = record db { items = select (λ i. not (of_order o i)) db.items }

-- WITH expired AS (UPDATE orders SET status = 'EXPIRED' WHERE status = 'PENDING' AND
-- expires_at < now() RETURNING id) DELETE FROM order_items WHERE order_id IN (SELECT id FROM expired)
abbrev pub overdue : ℕ → Order → Bool
overdue now o = is_pending o.status && ltb o.expires_at now

abbrev pub of_overdue : ℕ → List Order → Item → Bool
of_overdue now orders i = any (λ o. overdue now o && o.id == i.order_id) orders

unfoldable pub expire_overdue : ℕ → Db → ℕ × Db
expire_overdue now db = (
  length (select (of_overdue now db.orders) db.items),
  record db {
    orders = update (overdue now) (λ o. record o { status = expired }) db.orders;
    items = select (λ i. not (of_overdue now db.orders i)) db.items;
  },
)
