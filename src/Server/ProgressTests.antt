-- ===== src/Server/ProgressTests.antt =====
-- A booking over HTTP and its payment, at a small state.
use Prim.Native.String.{◌++◌}
use ticket_booking.Base.{◌<◌, select, ◌+◌, ◌*◌, String, ◌≡◌, refl, true, [], ◌∷◌, arith, is_uuid}
use ticket_booking.World.{booked, charged}
use ticket_booking.RateLimit.{allow, token_bucket}
use ticket_booking.RateLimit.Middleware.{middleware, client_ip}
use ticket_booking.Accounts.{lets, auth}
use ticket_booking.Db.{of_order, sum_price}
use ticket_booking.Booking.Body.{IsChecked}
use ticket_booking.Booking.Tests.{
  request-IsChecked, request-IsAdmitted, request-IsFree, no_hold, books_sum,
}
use ticket_booking.Payment.Tests.{locked, found, valid_id}
use ticket_booking.Server.{Http, Service, answered, decode_json}
use ticket_booking.Server.Routes.{segments_of, split_path, find_route, create_booking, pay_order}
use ticket_booking.Server.Handle.{bearer, handle}
use ticket_booking.Server.Serve.{serve, log_requests, limited, mux}
use ticket_booking.Server.Progress.{IsRouted, book_over_http, pay_over_http}
use ticket_booking.Server.Journey.{PaidUp, book_then_pay}
use ticket_booking.Server.Fixture.{setup, meets, asks, service}
use ticket_booking.Fixture.{user, order, new_order, request, db-IsConsistent}

abbrev books : Http
books = asks "POST" "/api/bookings" "ann" "book"

abbrev pays : String → Http
pays id = asks "POST" ("/api/orders/" ++ (id ++ "/pay")) "ann" ""

abbrev booked_service : Service
booked_service = (serve setup meets books service).1

books-IsRouted : IsRouted setup meets books service create_booking ""
unfolding segments_of split_path find_route middleware allow token_bucket client_ip
books-IsRouted = record {
  segments = "api" ∷ "bookings" ∷ [];
  is_path = refl;
  is_route = refl;
  no_preflight = refl;
  in_limit = refl;
}

pays-IsRouted : IsRouted setup meets (pays order) service pay_order order
unfolding segments_of split_path find_route middleware allow token_bucket client_ip
pays-IsRouted = record {
  segments = "api" ∷ "orders" ∷ order ∷ "pay" ∷ [];
  is_path = refl;
  is_route = refl;
  no_preflight = refl;
  in_limit = refl;
}

later-IsRouted : IsRouted setup meets (pays new_order) booked_service pay_order new_order
unfolding serve log_requests limited segments_of split_path find_route middleware allow token_bucket
    client_ip
later-IsRouted = record {
  segments = "api" ∷ "orders" ∷ new_order ∷ "pay" ∷ [];
  is_path = refl;
  is_route = refl;
  no_preflight = refl;
  in_limit = refl;
}

ann_books : bearer setup meets books ≡ lets user
unfolding auth
ann_books = refl

ann_pays : (id : String) → bearer setup meets (pays id) ≡ lets user
unfolding auth
ann_pays id = refl

body_read : IsChecked (decode_json setup.json.booking books.body) request
unfolding decode_json
body_read = request-IsChecked

new_id : is_uuid new_order ≡ true
unfolding is_uuid
new_id = refl

book_over_http_example :
    (serve setup meets books service).0.reply
    ≡ answered (record { status = 201; body = booked 200 (1000 + 1000 * 600) })
book_over_http_example =
    book_over_http setup meets books service (λ _. 1000) 200 user request refl books-IsRouted
      ann_books body_read request-IsAdmitted (omega arith) no_hold request-IsFree

pay_over_http_example :
    (serve setup meets (pays order) service).0.reply
    ≡ answered (record { status = 200; body = charged order 7000 })
pay_over_http_example =
    pay_over_http setup meets (pays order) service (λ _. 1000) 200 user order locked refl
      db-IsConsistent pays-IsRouted (ann_pays order) valid_id refl refl found refl (omega arith)
      (omega arith) (omega arith)

booked_small : sum_price (select (of_order 200) booked_service.world.db.items) < 10000000000
unfolding serve log_requests limited mux segments_of split_path find_route middleware allow
    token_bucket client_ip handle auth decode_json
booked_small = omega (arith, books_sum)

book_then_pay_example :
    PaidUp setup meets books service
      (λ _. 1000)
      200
      user
      new_order
      booked_service
      (serve setup meets (pays new_order) booked_service)
book_then_pay_example =
    book_then_pay setup meets books service (λ _. 1000) 200 user request meets (pays new_order)
      (λ _. 1000) 200 new_order db-IsConsistent refl books-IsRouted ann_books body_read
      request-IsAdmitted (omega arith) no_hold request-IsFree refl later-IsRouted
      (ann_pays new_order) new_id refl refl refl (omega arith) booked_small
