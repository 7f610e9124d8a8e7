-- ===== src/Listings/Tests.antt =====
-- The page of the event while a seat is held.
use ticket_booking.Base.{String, ◌≡◌, refl, none, some, List, [], ◌∷◌, All, arith, fine, is_uuid}
use ticket_booking.Db.{Seat, available, pending}
use ticket_booking.Listings.Rows.{Query, page_of_rows}
use ticket_booking.Listings.Rows
use ticket_booking.Listings.Catalog.{list_events, list_admin_events}
use ticket_booking.Listings.Orders.{Collation, list_orders}
use ticket_booking.Listings.Mine.{IsCollation, IsMine, list_orders-IsMine}
use ticket_booking.Listings.Revenue.{shown as rows_of}
use ticket_booking.Redis
use ticket_booking.Redis.{Store, hold_script, put_all, exists}
use ticket_booking.Holds.{hold_key}
use ticket_booking.World.{World}
use ticket_booking.Listings.{Listed, Calls, page, is_free, is_held, list_seats}
use ticket_booking.Listings.Overlay.{IsShown, list_seats-hold_script}
use ticket_booking.Fixture.{uuids, world, on_sale_event, event, seat, user, db-IsConsistent}

abbrev in_order : List Seat → List Seat
in_order seats = seats

abbrev calls : Calls
calls = record { header = fine; rows = fine; scan = fine; arrive = none; mget = fine; now = 2000 }

abbrev keys : List String
keys = hold_key event seat ∷ []

abbrev holding : World
holding = record world { redis = put_all keys "u1" 600 1000 world.redis }

abbrev shown : List Listed
shown =
    record {
      seat = record { id = 11; event_id = 1; seat_no = "A1"; status = available; price = 5000 };
      shown = is_held;
    }
    ∷ record {
      seat = record { id = 12; event_id = 1; seat_no = "A2"; status = available; price = 5000 };
      shown = is_free;
    }
    ∷ record {
      seat = record { id = 13; event_id = 1; seat_no = "A3"; status = available; price = 7000 };
      shown = is_free;
    }
    ∷ []

held : hold_script keys "u1" 600 1000 world.redis ≡ some (1, holding.redis)
unfolding hold_script exists
held = refl

answered : list_seats uuids in_order calls event holding ≡ page on_sale_event shown
unfolding list_seats is_uuid Redis.read put_all hold_key
answered = refl

list_seats-hold_script_example :
    All
      (IsShown uuids in_order calls event keys "u1" 600 1000 world.redis holding held (omega arith))
      shown
list_seats-hold_script_example =
    list_seats-hold_script uuids in_order calls event keys "u1" 600 1000 world.redis holding held
      (omega arith) on_sale_event shown refl answered

abbrev collation : Collation
collation = record {
  newest_first = λ orders. orders;
  by_seat_no = λ seats. seats;
  greatest = λ names. elim names [ [] ↦ none | ◌∷◌ name rest ↦ some name ];
}

collation-IsCollation : IsCollation collation
collation-IsCollation = record { newest-All = λ P rows h. h; no_seats = refl; no_names = refl }

abbrev all_rows : Query
all_rows = record { query = fine; scan = fine; arrive = none }

mine :
    rows_of (list_orders collation uuids all_rows user world)
    ≡ record {
      id = 100;
      status = pending;
      amount = 7000;
      seat_nos = "A3";
      event_name = some "Concert";
      series_name = none;
    }
      ∷ []
unfolding list_orders page_of_rows
mine = refl

list_orders-IsMine_example :
    All (IsMine 7 world.db) (rows_of (list_orders collation uuids all_rows user world))
list_orders-IsMine_example =
    list_orders-IsMine collation collation-IsCollation uuids all_rows user world db-IsConsistent

on_the_page :
    rows_of (list_events all_rows world)
    ≡ record { event = on_sale_event; available = 3; total = 3; price_from = 5000 } ∷ []
unfolding list_events page_of_rows
on_the_page = refl

on_the_dashboard :
    rows_of (list_admin_events all_rows world)
    ≡ record { event = on_sale_event; total = 3; sold = 0; available = 3; revenue = 0 } ∷ []
unfolding list_admin_events page_of_rows
on_the_dashboard = refl

-- A connection that breaks after the header row of the answer: an empty page under 200.
cut_short : list_events (record { query = fine; scan = fine; arrive = some 0 }) world ≡ Rows.page []
unfolding list_events page_of_rows
cut_short = refl
