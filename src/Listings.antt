-- ===== src/Listings.antt =====
-- `listSeats` of api/handlers.go. The database's collation, which orders the labels, is a parameter.
pub mod Rows
pub mod Catalog
pub mod Orders
pub mod Sums
pub mod Takings
pub mod Mine
pub mod Revenue
pub mod Overlay
pub mod Tests
use ticket_booking.Base.{
  ℕ, zero, suc, String, Bool, true, false, Option, none, some, List, [], ◌∷◌, map, ◌==◌,
  if◌then◌else◌, not, select, first, is_uuid, Fault, any, ◌&&◌,
}
use ticket_booking.Db.{Event, Seat, SeatStatus, available, sold}
use ticket_booking.Redis
use ticket_booking.Redis.{Store}
use ticket_booking.Holds.{hold_key}
use ticket_booking.World.{World, Uuids, failed}

-- The status that the page shows.
pub data Shown : Type 0 where
  is_free is_held is_gone : Shown

pub record Listed : Type 0 where
  pub seat : Seat
  pub shown : Shown

pub data Answer : Type 0 where
  page : Event → List Listed → Answer
  denied : ℕ → String → Answer

-- The calls: the event's row, its seats, the Scan of one of them, MGET; and the time.
pub record Calls : Type 0 where
  pub header : Fault
  pub rows : Fault
  pub scan : Fault
  -- how many rows arrive if the connection breaks
  pub arrive : Option ℕ
  pub mget : Fault
  pub now : ℕ

-- LIMIT n
abbrev pub take : {A : Type 0} → ℕ → List A → List A
take zero xs = []
take (suc n) [] = []
take (suc n) (x ∷ xs) = x ∷ take n xs

-- The rows that `rows.Next()` gives: only so many if the connection breaks among them.
abbrev pub arrived : {A : Type 0} → Option ℕ → List A → List A
arrived none rows = rows
arrived (some n) rows = take n rows

abbrev pub in_table : SeatStatus → Shown
in_table available = is_free
in_table sold = is_gone

-- MGET
abbrev pub mget : Store → ℕ → List String → List (Option String)
mget r now keys = map (Redis.read r now) keys

-- if v != nil && seats[i].Status == "AVAILABLE"
abbrev pub mark : Option String → SeatStatus → Shown
mark none status = in_table status
mark (some v) available = is_held
mark (some v) sold = is_gone

abbrev pub from_table : List Seat → List Listed
from_table = map (λ s. record { seat = s; shown = in_table s.status })

-- for i, v := range vals
pub overlay : List Seat → List (Option String) → List Listed
overlay [] vals = []
overlay (s ∷ ss) [] = from_table (s ∷ ss)
overlay (s ∷ ss) (v ∷ vs) = record { seat = s; shown = mark v s.status } ∷ overlay ss vs

module _ (u : Uuids) (by_seat_no : List Seat → List Seat) (c : Calls) (event_id : String) where
  abbrev pub key_of : Seat → String
  key_of s = hold_key event_id (u.text s.id)

  -- SELECT … FROM seats WHERE event_id = $1 ORDER BY seat_no LIMIT 1000, as far as its rows arrive
  abbrev pub rows_of : World → List Seat
  rows_of w =
      arrived c.arrive
        (take 1000 (by_seat_no (select (λ s. s.event_id == u.value event_id) w.db.seats)))

  abbrev pub shown_rows : World → List Seat → List Listed
  shown_rows w seats =
      if failed c.mget
      then from_table seats
      else overlay seats (mget w.redis c.now (map key_of seats))

  abbrev pub page_of : Option Event → World → Answer
  page_of none w = denied 404 "event_not_found"
  page_of (some e) w =
      if failed c.rows
      then denied 400 "bad_event"
      else if failed c.scan && any (λ _. true) (rows_of w)
      then denied 500 "db_error"
      else page e (shown_rows w (rows_of w))

  pub list_seats : World → Answer
  unfolding overlay
  list_seats w =
      if not (is_uuid event_id)
      then denied 400 "bad_event_id"
      else page_of
          (if failed c.header then none else first (λ e. e.id == u.value event_id) w.db.events) w
