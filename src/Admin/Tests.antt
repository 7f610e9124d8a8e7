-- ===== src/Admin/Tests.antt =====
-- The administration of events at a small layout.
use ticket_booking.Base.{
  ℕ, String, ◌≡◌, refl, true, Option, none, some, [], ◌∷◌, str_eq, if◌then◌else◌, pos, ◌+◌, ◌*◌,
  ◌≤◌, length, select, leb, fine, arith, ◌>>=◌, trim_space, trim_left, trim_right, decimal,
  decimal_onto,
}
use ticket_booking.Db.{closed, available}
use ticket_booking.World.{Env, event_created}
use ticket_booking.Admin.Tables.{
  NewEvent, Patch, Draws, Plan, label, new_seats, insert_event, insert_seats,
}
use ticket_booking.Admin.Handlers.{check_new, create_rows, create_admin_event}
use ticket_booking.Admin.Effect.{Opened, create_admin_event_effect}
use ticket_booking.Admin.Layout.{seat_map}
use ticket_booking.Fixture.{uuids, world}

abbrev parse_time : String → Option ℕ
parse_time t = if str_eq t "2026-11-01T19:00:00+07:00" then some 1793534400000 else none

abbrev draws : Draws
draws = record { series = 900; seat = λ r c. 1000 + 100 * r + c }

abbrev env : Env
env = record { fault = λ _. fine; clock = λ _. 1000; fresh = 50 }

abbrev body : NewEvent
body = record {
  name = "Matinee";
  starts_at = "2026-11-01T19:00:00+07:00";
  sale_opens_at = "";
  status = "";
  rows = pos 2;
  seats_per_row = pos 2;
  price = record { positive = true; cents = 5000 };
  premium_rows = pos 1;
  premium_price = record { positive = true; cents = 9000 };
  max_seats_per_order = pos 0;
  series_id = "";
  series_name = " Live ";
  venue = "";
}

abbrev plan : Plan
plan = record {
  starts_at = 1793534400000;
  sale_opens_at = 1000;
  status = closed;
  max_seats_per_order = 4;
  rows = 2;
  seats_per_row = 12;
  premium_rows = 1;
  price = 5000;
  premium_price = 9000;
}

created_answer :
    (create_admin_event uuids parse_time env draws (some body) world).0
    ≡ record { status = 201; body = event_created 50 4 }
unfolding create_admin_event ◌>>=◌ check_new create_rows trim_space trim_left trim_right decimal
    decimal_onto insert_event insert_seats
created_answer = refl

last_label : label 2 12 ≡ "B12"
unfolding decimal decimal_onto
last_label = refl

create_admin_event_effect_example :
    Opened uuids parse_time env draws
      (some body)
      world
      (create_admin_event uuids parse_time env draws (some body) world)
create_admin_event_effect_example =
    create_admin_event_effect uuids parse_time env draws (some body) world

abbrev patch : Patch
patch = record { status = some "CLOSED"; sale_opens_at = none; max_seats_per_order = some (pos 6) }

seat_map_example :
    (length (new_seats draws 50 plan) ≡ 2 * 12)
    × ((r c : ℕ)
        → 1 ≤ r
        → r ≤ 2
        → 1 ≤ c
        → c ≤ 12
        → select (λ s. str_eq s.seat_no (label r c)) (new_seats draws 50 plan)
          ≡ record {
            id = draws.seat r c;
            event_id = 50;
            seat_no = label r c;
            status = available;
            price = if leb r 1 then 9000 else 5000;
          }
            ∷ [])
seat_map_example = seat_map draws 50 plan (omega arith)
