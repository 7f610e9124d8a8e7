-- ===== src/Server/Tests.antt =====
-- Requests over HTTP at a small state, and the theorems of the service at them.
use Prim.Native.String.{◌++◌}
use ticket_booking.Base.{
  Option, none, some, str_eq, if◌then◌else◌, ℕ, ◌≤◌, String, ◌≡◌, ◌≢◌, refl, true, false, [], ◌∷◌,
  ◌==◌, any, ap, subst, ◌&&◌, Bool, length, select, All,
}
use ticket_booking.Db.{is_sold, available, sold, paid, succeeded}
use ticket_booking.Db.Consistent.{IsConsistent}
use ticket_booking.Db.Ownership.{IsOwner}
use ticket_booking.Db.Priced.{IsPriced}
use ticket_booking.Db.Rows.{paid_for}
use ticket_booking.Spec.{Move, view}
use ticket_booking.World.{World}
use ticket_booking.RateLimit.{allow, token_bucket}
use ticket_booking.RateLimit.Middleware.{middleware, client_ip}
use ticket_booking.Accounts.{Guarded, lets, turns_away, auth, admin_auth}
use ticket_booking.Booking.{create_booking}
use ticket_booking.Cancel.{expire_overdue_orders}
use ticket_booking.Listings.Rows.{sum_of}
use ticket_booking.Listings.Catalog.{list_admin_events}
use ticket_booking.Listings.Takings.{takings, collected}
use ticket_booking.Listings.Revenue.{shown, revenue_is_paid}
use ticket_booking.Server.{Setup, Http, Service, answered, decode_json}
use ticket_booking.Server.Routes.{find_route, segments_of, split_path, routes, found, pay_order}
use ticket_booking.Server.Handle.{bearer, admin, handle}
use ticket_booking.Server.Serve.{serve, log_requests, limited, mux}
use ticket_booking.Server.Effect.{Effect, serve-Effect}
use ticket_booking.Server.Live.{Reach, here, after, requests, ticks}
use ticket_booking.Server.Safety.{live_moves, live_no_oversell}
use ticket_booking.Server.Ownership.{paid_seat_kept}
use ticket_booking.Server.Access.{IsKept, strangers_keep}
use ticket_booking.Server.Admins.{HasSameEvents, only_admins}
use ticket_booking.Server.TurnedBack.{turned_back}
use ticket_booking.Config.{validate_jwt_secret}
use ticket_booking.Config.Load.{load, atoi}
use ticket_booking.RateLimit.Settings.{new_rate_limiter}
use ticket_booking.Server.Start.{Libraries, start}
use ticket_booking.Server.Fixture.{all_rows, setup, meets, asks, idle, service}
use ticket_booking.Fixture.{uuids, app, env, late, user, order, request, db, world, db-IsConsistent}

abbrev books : Http
books = asks "POST" "/api/bookings" "ann" "book"

abbrev pays : Http
pays = asks "POST" ("/api/orders/" ++ (order ++ "/pay")) "ann" ""

abbrev eve_cancels : Http
eve_cancels = asks "DELETE" ("/api/orders/" ++ order) "eve" ""

abbrev patches : Http
patches = asks "PATCH" "/api/admin/events/1" "ann" ""

abbrev booked : Service
booked = (serve setup meets books service).1

abbrev paid_up : Service
paid_up = (serve setup meets pays booked).1

abbrev last : Service
last = record paid_up { world = (expire_overdue_orders late paid_up.world).1 }

run : Reach setup service last
run =
    after (after (after here (requests meets books refl)) (requests meets pays refl))
      (ticks late refl)

serve-Effect_example : Effect setup meets books world booked.world.db
serve-Effect_example = serve-Effect setup meets books service

live_moves_example : IsConsistent booked.world.db × Move (view world.db) (view booked.world.db)
live_moves_example = live_moves setup db-IsConsistent (requests meets books refl)

live_no_oversell_example :
    let db = last.world.db in
    ((s : ℕ) → length (select (λ i. i.seat_id == s) db.items) ≤ 1)
    × All (λ s. is_sold s.status ≡ paid_for db.orders db.items s.id) db.seats
    × ((o : ℕ) → length (select (λ p. p.order_id == o) db.payments) ≤ 1)
live_no_oversell_example = live_no_oversell setup db-IsConsistent run

db-IsPriced : IsPriced db
db-IsPriced = record { events_differ = (refl, tt); items_priced = (refl, tt) }

revenue_is_paid_example :
    (takings last.world.db ≡ collected last.world.db)
    × (sum_of (λ r. r.revenue) (shown (list_admin_events all_rows last.world))
        ≤ collected last.world.db)
revenue_is_paid_example = revenue_is_paid setup all_rows db-IsConsistent db-IsPriced run

abbrev name : Guarded → String
name (lets who) = who
name (turns_away status code) = ""

abbrev is_allowed : Guarded → Bool
is_allowed (lets who) = true
is_allowed (turns_away status code) = false

eve_has_none :
    (who : String)
    → bearer setup meets eve_cancels ≡ lets who
    → any (λ o. o.id == 100 && o.user_id == uuids.value who) db.orders ≡ false
unfolding auth
eve_has_none who e =
    subst (λ w. any (λ o. o.id == 100 && o.user_id == uuids.value w) db.orders ≡ false) (ap name e)
      refl

strangers_keep_example : IsKept 100 db (serve setup meets eve_cancels service).1.world.db
strangers_keep_example = strangers_keep setup meets eve_cancels 100 service refl eve_has_none

no_admin : (who : String) → admin setup meets patches world ≢ lets who
unfolding auth admin_auth
no_admin who = λ e. let no = ap is_allowed e in cc

only_admins_example : HasSameEvents db (serve setup meets patches service).1.world.db
only_admins_example = only_admins setup meets patches service no_admin

-- Nobody pays without a token.
turned_back_example :
    (serve setup meets (asks "POST" "/api/bookings" "" "book") service).1.world ≡ world
unfolding serve log_requests limited mux middleware allow token_bucket client_ip segments_of
    split_path find_route handle auth
turned_back_example = turned_back setup meets (asks "POST" "/api/bookings" "" "book") service refl

-- The tables after order 100 is paid.
abbrev sold_world : World
sold_world = record world {
  db = record db {
    seats =
        record { id = 11; event_id = 1; seat_no = "A1"; status = available; price = 5000 }
        ∷ record { id = 13; event_id = 1; seat_no = "A3"; status = sold; price = 7000 }
        ∷ [];
    orders = record { id = 100; user_id = 7; status = paid; expires_at = 9000 } ∷ [];
    payments =
        record { order_id = 100; idempotency_key = "key-1"; status = succeeded; amount = 7000 }
        ∷ [];
  };
}

sold-IsConsistent : IsConsistent sold_world.db
sold-IsConsistent = record {
  orders_differ = (refl, tt);
  seats_differ = (refl, (refl, tt));
  one_item = (refl, tt);
  items_seated = (refl, tt);
  items_active = (refl, tt);
  sold_is_paid = (refl, (refl, tt));
  payments_paid = (refl, tt);
  one_payment = (refl, tt);
  paid_is_charged = (refl, tt);
  amounts = (refl, tt);
}

abbrev cancels : Http
cancels = asks "DELETE" ("/api/orders/" ++ order) "ann" ""

abbrev after_cancel : Service
after_cancel = (serve setup meets cancels (idle sold_world)).1

paid_seat_kept_example : IsOwner 100 13 (expire_overdue_orders late after_cancel.world).1.db
paid_seat_kept_example =
    paid_seat_kept setup 100 13 sold-IsConsistent (record { is_paid = refl; has_seat = refl })
      (after (after here (requests meets cancels refl)) (ticks late refl))

routed_to_pay :
    find_route routes "POST" ("api" ∷ "orders" ∷ order ∷ "pay" ∷ []) ≡ found pay_order order
unfolding find_route
routed_to_pay = refl

paths :
    (segments_of "/api/orders/7/pay" ≡ some ("api" ∷ "orders" ∷ "7" ∷ "pay" ∷ []))
    × (segments_of "/api//orders" ≡ none)
    × (segments_of "/api/../orders" ≡ none)
unfolding segments_of split_path
paths = (refl, refl, refl)

booked_over_http :
    (serve setup meets books service).0.reply
    ≡ answered (create_booking uuids app env user (some request) world).0
unfolding serve log_requests limited mux middleware allow token_bucket client_ip segments_of
    split_path find_route handle auth decode_json
booked_over_http = refl

-- The service with no settings but a secret.
abbrev os : String → String
os key = if str_eq key "JWT_SECRET" then "0123456789abcdef0123456789abcdef" else ""

abbrev libraries : Libraries
libraries = record {
  uuids = uuids;
  bcrypt = setup.bcrypt;
  to_lower = setup.to_lower;
  digest = setup.digest;
  sign = λ secret user expires. some (secret ++ user);
  verify = λ secret t. none;
  parse_time = setup.parse_time;
  connects = λ url. true;
  parse_float = λ unit text. none;
  json = setup.json;
  collation = setup.collation;
}

abbrev hold_ttl_of : Option Setup → ℕ
hold_ttl_of none = 0
hold_ttl_of (some s) = s.app.hold_ttl

abbrev limits_of : Option Setup → ℕ × ℕ
limits_of none = (0, 0)
limits_of (some s) = (s.limits.rps, s.limits.burst)

started_with_defaults :
    (hold_ttl_of (start os libraries) ≡ 600)
    × (limits_of (start os libraries) ≡ (500000, 5000000000))
unfolding start load validate_jwt_secret atoi new_rate_limiter
started_with_defaults = (refl, refl)
