-- ===== src/Admin/Tables.antt =====
-- The bodies of the requests of api/admin.go, and the statements that its handlers run.
use Prim.Native.String.{[], ◌∷◌ as cons}
use ticket_booking.Base.{
  ℕ, suc, zero, ◌+◌, String, Bool, false, ◌&&◌, ◌||◌, Option, none, some, List, [], ◌∷◌,
  ◌++◌ as append, map, leb, ◌==◌, str_eq, if◌then◌else◌, length, any, first, select, update, ℤ,
  decimal, chr,
}
use ticket_booking.Db.{Db, Event, EventStatus, on_sale, closed, Seat, available}

-- A float64 of a body as the program sees it: is it above 0, and the cents to which Postgres rounds it
-- for a numeric(10,2), which may be none.
pub record Price : Type 0 where
  pub positive : Bool
  pub cents : ℕ

-- The body of POST /api/admin/events
pub record NewEvent : Type 0 where
  pub name : String
  pub starts_at : String
  pub sale_opens_at : String
  pub status : String
  pub rows : ℤ
  pub seats_per_row : ℤ
  pub price : Price
  pub premium_rows : ℤ
  pub premium_price : Price
  pub max_seats_per_order : ℤ
  pub series_id : String
  pub series_name : String
  pub venue : String

-- The body of PATCH /api/admin/events/{id}
pub record Patch : Type 0 where
  pub status : Option String
  pub sale_opens_at : Option String
  pub max_seats_per_order : Option ℤ

-- What `gen_random_uuid()` draws for the series and for the seat in a row and a column.
pub record Draws : Type 0 where
  pub series : ℕ
  pub seat : ℕ → ℕ → ℕ

-- What the guards have made of a body.
pub record Plan : Type 0 where
  pub starts_at : ℕ
  pub sale_opens_at : ℕ
  pub status : EventStatus
  pub max_seats_per_order : ℕ
  pub rows : ℕ
  pub seats_per_row : ℕ
  pub premium_rows : ℕ
  pub price : ℕ
  pub premium_price : ℕ

-- generate_series(1, n); the order of the rows that come of it is immaterial.
abbrev pub generate_series : ℕ → List ℕ
generate_series zero = []
generate_series (suc n) = suc n ∷ generate_series n

-- FROM generate_series(1, $2) AS r, generate_series(1, $3) AS c
abbrev pub places : ℕ → ℕ → List (ℕ × ℕ)
places zero m = []
places (suc n) m = append (map (λ c. (suc n, c)) (generate_series m)) (places n m)

-- chr((64 + r)::int) || c
abbrev pub label : ℕ → ℕ → String
label r c = cons (chr (64 + r)) (decimal c)

-- CASE WHEN r <= $4 THEN $5 ELSE $6 END
abbrev pub price_in : Plan → ℕ → ℕ
price_in p r = if leb r p.premium_rows then p.premium_price else p.price

abbrev pub seat_at : Draws → ℕ → Plan → ℕ × ℕ → Seat
seat_at d event p (r, c) = record {
  id = d.seat r c;
  event_id = event;
  seat_no = label r c;
  status = available;
  price = price_in p r;
}

abbrev pub new_seats : Draws → ℕ → Plan → List Seat
new_seats d event p = map (seat_at d event p) (places p.rows p.seats_per_row)

-- The primary key of `seats` and UNIQUE (event_id, seat_no).
abbrev pub same_key : Seat → Seat → Bool
same_key x y = y.id == x.id || y.event_id == x.event_id && str_eq y.seat_no x.seat_no

abbrev pub breaches : List Seat → List Seat → Bool
breaches [] old = false
breaches (x ∷ xs) old = any (same_key x) (append xs old) || breaches xs old

-- numeric(10,2), in cents
abbrev pub too_large : Seat → Bool
too_large s = leb 10000000000 s.price

-- INSERT INTO seats, all rows or none.
unfoldable pub insert_seats : List Seat → Db → Option Db
insert_seats xs db =
    if breaches xs db.seats || any too_large xs
    then none
    else some (record db { seats = append xs db.seats })

-- INSERT INTO events
unfoldable pub insert_event : Event → Db → Option Db
insert_event e db =
    if any (λ x. x.id == e.id) db.events then none else some (record db { events = e ∷ db.events })

abbrev pub in_series : ℕ → Event → Bool
in_series s e = elim e.series_id [ none ↦ false | some k ↦ k == s ]

-- SELECT … FROM events WHERE series_id = $6 LIMIT 1, whose choice among several rows is Postgres's: here
-- it is the first row of the list.
abbrev pub of_series : {A : Type 0} → (Event → Option A) → ℕ → List Event → Option A
of_series f s events = elim (first (in_series s) events) [ none ↦ none | some e ↦ f e ]

-- NULLIF($8, '')
abbrev pub null_if_empty : String → Option String
null_if_empty s = if str_eq s "" then none else some s

abbrev pub status_named : String → Option EventStatus
status_named s =
    if str_eq s "ON_SALE" then some on_sale else if str_eq s "CLOSED" then some closed else none

-- COALESCE($n, column)
abbrev pub coalesce : {A : Type 0} → Option A → A → A
coalesce none x = x
coalesce (some y) x = y

-- What the guards have made of a patch.
pub record Change : Type 0 where
  pub status : Option EventStatus
  pub sale_opens_at : Option ℕ
  pub max_seats_per_order : Option ℕ

abbrev pub changed : Change → Event → Event
changed c e = record e {
  status = coalesce c.status e.status;
  sale_opens_at = coalesce c.sale_opens_at e.sale_opens_at;
  max_seats_per_order = coalesce c.max_seats_per_order e.max_seats_per_order;
}

-- UPDATE events SET … WHERE id = $1, with the number of rows.
unfoldable pub patch_events : ℕ → Change → Db → ℕ × Db
patch_events id c db = (
  length (select (λ e. e.id == id) db.events),
  record db { events = update (λ e. e.id == id) (changed c) db.events },
)
