-- ===== src/Booking/Tests.antt =====
-- A booking on the small state, and the booking theorems at concrete arguments.
use ticket_booking.Base.{◌≡◌, refl, some, select, arith, any, false, is_uuid, ◌>>=◌}
use ticket_booking.Redis.{hold_script}
use ticket_booking.Db.{held_now, new_items, of_order, sum_price, insert_order, insert_items}
use ticket_booking.World.{booked, log_attempt}
use ticket_booking.Booking.{
  sort, insert_sorted, check_body, find_event, sale_gate, hold, hold_cap, give_up, insert, all_rows,
  book_rows, book_tx, attempt, create_booking,
}
use ticket_booking.Booking.Answer.{Answered, create_booking_effect}
use ticket_booking.Redis
use ticket_booking.Booking.Body.{IsChecked}
use ticket_booking.Booking.Admission.{IsAdmitted, keys}
use ticket_booking.Booking.Ready.{IsFree}
use ticket_booking.Fixture.{on_sale_event, uuids, app, env, user, request, world}

books :
    (create_booking uuids app env user (some request) world).0
    ≡ record { status = 201; body = booked 200 601000 }
unfolding ◌>>=◌ is_uuid hold_script held_now insert_order insert_items sort insert_sorted check_body
    find_event sale_gate hold hold_cap give_up insert all_rows book_rows book_tx attempt
    create_booking
books = refl

pub books_sum :
    sum_price
      (select (of_order 200) (create_booking uuids app env user (some request) world).1.db.items)
    ≡ 5000
unfolding ◌>>=◌ is_uuid hold_script held_now insert_order insert_items sort insert_sorted check_body
    find_event sale_gate hold hold_cap give_up insert all_rows book_rows book_tx attempt
    create_booking log_attempt
books_sum = refl

create_booking_effect_example :
    Answered uuids app env user
      (some request)
      world
      (create_booking uuids app env user (some request) world)
create_booking_effect_example = create_booking_effect uuids app env user (some request) world

pub request-IsChecked : IsChecked (some request) request
unfolding sort insert_sorted is_uuid
request-IsChecked = record {
  given = (request.seat_ids, refl, refl);
  some_seats = omega arith;
  few_seats = omega arith;
  event_is_uuid = refl;
  seats_are_uuids = refl;
}

pub request-IsAdmitted : IsAdmitted uuids app env user world.db request
unfolding held_now
request-IsAdmitted = record {
  event = on_sale_event;
  found = refl;
  is_open = refl;
  opened = omega arith;
  per_order = omega arith;
  per_user = omega arith;
}

pub request-IsFree : IsFree uuids app (λ _. 1000) 200 user world.db request
unfolding new_items
request-IsFree = record { new_id = refl; known = refl; untaken = refl; all_seats = refl }

pub no_hold : any (Redis.exists world.redis 1000) (keys uuids app env user request) ≡ false
unfolding Redis.exists Redis.read
no_hold = refl
