-- ===== src/Fixture.antt =====
-- A small concrete state of the service for the tests: one event on sale with three seats, the
-- last of which a pending order has.
use ticket_booking.Base.{
  String, refl, true, false, none, [], ◌∷◌, ◌==◌, str_eq, if◌then◌else◌, fine,
}
use ticket_booking.Db.{Db, Event, on_sale, available, pending}
use ticket_booking.Db.Consistent.{IsConsistent}
use ticket_booking.Redis
use ticket_booking.World.{World, App, Env, Uuids}
use ticket_booking.Booking.{Request}

abbrev pub event : String
event = "00000000-0000-0000-0000-000000000001"

abbrev pub seat : String
seat = "00000000-0000-0000-0000-000000000011"

abbrev pub user : String
user = "00000000-0000-0000-0000-000000000007"

abbrev pub order : String
order = "00000000-0000-0000-0000-000000000100"

abbrev pub new_order : String
new_order = "00000000-0000-0000-0000-000000000200"

abbrev pub uuids : Uuids
uuids = record {
  value = λ s.
      if str_eq s event
      then 1
      else if str_eq s seat
      then 11
      else if str_eq s user
      then 7
      else if str_eq s order
      then 100
      else if str_eq s new_order
      then 200
      else 0;
  text = λ n.
      if n == 1 then event else if n == 11 then seat else "00000000-0000-0000-0000-000000000013";
}

abbrev pub app : App
app = record { hold_ttl = 600; max_held_seats = 8; logging = true; queue_capacity = 4096 }

abbrev pub env : Env
env = record { fault = λ _. fine; clock = λ _. 1000; fresh = 200 }

-- The same after the pending order has run out.
abbrev pub late : Env
late = record { fault = λ _. fine; clock = λ _. 10000; fresh = 300 }

abbrev pub on_sale_event : Event
on_sale_event = record {
  id = 1;
  name = "Concert";
  starts_at = 900000;
  sale_opens_at = 500;
  status = on_sale;
  max_seats_per_order = 4;
  internal = false;
  series_id = none;
  series_name = none;
  venue = none;
}

abbrev pub db : Db
db = record {
  users = record { id = 7; email = "ann@example.org"; password_hash = "#"; is_admin = false } ∷ [];
  events = on_sale_event ∷ [];
  seats =
      record { id = 11; event_id = 1; seat_no = "A1"; status = available; price = 5000 }
      ∷ record { id = 12; event_id = 1; seat_no = "A2"; status = available; price = 5000 }
      ∷ record { id = 13; event_id = 1; seat_no = "A3"; status = available; price = 7000 }
      ∷ [];
  orders = record { id = 100; user_id = 7; status = pending; expires_at = 9000 } ∷ [];
  items = record { order_id = 100; seat_id = 13; price = 7000 } ∷ [];
  payments = [];
}

abbrev pub world : World
world = record { db = db; redis = Redis.empty; attempts = [] }

abbrev pub request : Request
request = record { event_id = event; seat_ids = seat ∷ [] }

pub db-IsConsistent : IsConsistent db
db-IsConsistent = record {
  orders_differ = (refl, tt);
  seats_differ = (refl, (refl, (refl, tt)));
  one_item = (refl, tt);
  items_seated = (refl, tt);
  items_active = (refl, tt);
  sold_is_paid = (refl, (refl, (refl, tt)));
  payments_paid = tt;
  one_payment = tt;
  paid_is_charged = (refl, tt);
  amounts = tt;
}
