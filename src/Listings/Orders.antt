-- ===== src/Listings/Orders.antt =====
-- `listOrders` of api/handlers.go. `created_at`, which no other statement reads, is no column of the
-- rows here: the order by it is a parameter, as are the collation that orders the labels, and the
-- greatest of several texts.
use Prim.Native.String.{◌++◌ as join}
use ticket_booking.Base.{ℕ, String, Option, none, some, List, [], ◌∷◌, ◌++◌, map, ◌==◌, select}
use ticket_booking.Db.{Db, Event, Seat, Order, OrderStatus, Item, of_order, sum_price}
use ticket_booking.World.{World, Uuids}
use ticket_booking.Listings.{take}
use ticket_booking.Listings.Rows.{Query, Page, page_of_rows}

pub record Collation : Type 0 where
  pub newest_first : List Order → List Order
  pub by_seat_no : List Seat → List Seat
  pub greatest : List String → Option String

pub record MyOrder : Type 0 where
  pub id : ℕ
  pub status : OrderStatus
  pub amount : ℕ
  pub seat_nos : String
  pub event_name : Option String
  pub series_name : Option String

-- LEFT JOIN seats s ON s.id = oi.seat_id
abbrev pub seats_of_items : List Seat → List Item → List Seat
seats_of_items seats [] = []
seats_of_items seats (i ∷ is) = select (λ s. s.id == i.seat_id) seats ++ seats_of_items seats is

-- LEFT JOIN events e ON e.id = s.event_id
abbrev pub events_of_seats : List Event → List Seat → List Event
events_of_seats events [] = []
events_of_seats events (s ∷ ss) =
    select (λ e. e.id == s.event_id) events ++ events_of_seats events ss

-- An aggregate passes over a NULL.
abbrev pub present : {A : Type 0} → List (Option A) → List A
present [] = []
present (none ∷ xs) = present xs
present (some x ∷ xs) = x ∷ present xs

-- COALESCE(string_agg(x, ', '), '')
abbrev pub string_agg : List String → String
string_agg [] = ""
string_agg (x ∷ []) = x
string_agg (x ∷ y ∷ ys) = join x (join ", " (string_agg (y ∷ ys)))

module _ (c : Collation) where
  abbrev pub order_row : Db → Order → MyOrder
  order_row db o =
      let items = select (of_order o.id) db.items in
      let seats = seats_of_items db.seats items in
      let events = events_of_seats db.events seats in
      record {
        id = o.id;
        status = o.status;
        amount = sum_price items;
        seat_nos = string_agg (map (λ s. s.seat_no) (c.by_seat_no seats));
        event_name = c.greatest (map (λ e. e.name) events);
        series_name = c.greatest (present (map (λ e. e.series_name) events));
      }

  -- WHERE o.user_id = $1 GROUP BY o.id ORDER BY o.created_at DESC LIMIT 20
  abbrev pub orders_of : ℕ → Db → List MyOrder
  orders_of user db =
      map (order_row db) (take 20 (c.newest_first (select (λ o. o.user_id == user) db.orders)))

  unfoldable pub list_orders : Uuids → Query → String → World → Page MyOrder
  list_orders u q user w = page_of_rows q (orders_of (u.value user) w.db)
