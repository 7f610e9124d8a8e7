-- ===== src/Listings/Catalog.antt =====
-- `listEvents` of api/handlers.go and `listAdminEvents` of api/admin.go.
use ticket_booking.Base.{
  ℕ, Bool, true, false, ◌&&◌, ◌||◌, Option, none, some, List, map, ltb, leb, ◌==◌, length, select,
  not,
}
use ticket_booking.Db.{Db, Event, Seat, is_available, is_sold, is_on_sale}
use ticket_booking.World.{World}
use ticket_booking.Listings.Rows.{Query, Page, page_of_rows, sum_of, least, order_by}

-- LEFT JOIN seats s ON s.event_id = e.id … GROUP BY e.id: the seats of an event.
abbrev pub seats_of : Event → List Seat → List Seat
seats_of e = select (λ s. s.event_id == e.id)

-- ORDER BY e.series_id NULLS FIRST, e.starts_at
abbrev pub series_before : Option ℕ → Option ℕ → Bool → Bool
series_before none none earlier = earlier
series_before none (some j) earlier = true
series_before (some i) none earlier = false
series_before (some i) (some j) earlier = ltb i j || i == j && earlier

abbrev pub listed_before : Event → Event → Bool
listed_before x y = series_before x.series_id y.series_id (leb x.starts_at y.starts_at)

pub record OnSale : Type 0 where
  pub event : Event
  pub available : ℕ
  pub total : ℕ
  pub price_from : ℕ

abbrev pub on_sale_row : List Seat → Event → OnSale
on_sale_row seats e = record {
  event = e;
  available = length (select (λ s. is_available s.status) (seats_of e seats));
  total = length (seats_of e seats);
  price_from = least (map (λ s. s.price) (seats_of e seats));
}

-- WHERE e.status = 'ON_SALE' AND NOT e.internal
abbrev pub is_public : Event → Bool
is_public e = is_on_sale e.status && not e.internal

abbrev pub events_on_sale : Db → List OnSale
events_on_sale db = map (on_sale_row db.seats) (order_by listed_before (select is_public db.events))

unfoldable pub list_events : Query → World → Page OnSale
list_events q w = page_of_rows q (events_on_sale w.db)

pub record Stats : Type 0 where
  pub event : Event
  pub total : ℕ
  pub sold : ℕ
  pub available : ℕ
  pub revenue : ℕ

abbrev pub stats_row : List Seat → Event → Stats
stats_row seats e = record {
  event = e;
  total = length (seats_of e seats);
  sold = length (select (λ s. is_sold s.status) (seats_of e seats));
  available = length (select (λ s. is_available s.status) (seats_of e seats));
  revenue = sum_of (λ s. s.price) (select (λ s. is_sold s.status) (seats_of e seats));
}

-- WHERE NOT e.internal
abbrev pub event_stats : Db → List Stats
event_stats db =
    map (stats_row db.seats) (order_by listed_before (select (λ e. not e.internal) db.events))

unfoldable pub list_admin_events : Query → World → Page Stats
list_admin_events q w = page_of_rows q (event_stats w.db)
