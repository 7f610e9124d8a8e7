-- ===== src/Server/Progress.antt =====
-- A booking and a payment over HTTP that nothing stands in the way of.
use ticket_booking.Base.{
  ℕ, ◌+◌, ◌*◌, ◌≤◌, ◌<◌, String, ◌≡◌, refl, ◌∙◌, Bool, true, false, some, List, any, str_eq,
  is_uuid, length, select, ap,
}
use ticket_booking.Db.{Order, pending, of_order, sum_price}
use ticket_booking.Db.Consistent.{IsConsistent}
use ticket_booking.Redis
use ticket_booking.World.{Site, booked, charged, calm, begin_tx, lock_order, run_hold}
use ticket_booking.RateLimit.{Buckets}
use ticket_booking.RateLimit.Middleware.{Passed, served, rate_limited, middleware}
use ticket_booking.Booking.{Request}
use ticket_booking.Booking.Body.{IsChecked}
use ticket_booking.Booking.Admission.{IsAdmitted, keys}
use ticket_booking.Booking.Ready.{IsFree}
use ticket_booking.Booking.Progress.{create_booking-progress}
use ticket_booking.Payment.{own_order}
use ticket_booking.Payment.Progress.{pay_order-progress}
use ticket_booking.Accounts.{lets}
use ticket_booking.Server.{Http, Setup, Meets, Service, answered, decode_json}
use ticket_booking.Server.Routes.{
  Endpoint, found, routes, find_route, segments_of, create_booking, pay_order,
}
use ticket_booking.Server.Handle.{bearer, handle}
use ticket_booking.Server.Serve.{call_of, mux, passed, limited, log_requests, serve}

module _ (x : Setup) (m : Meets) (r : Http) (v : Service) where
  -- The request is no preflight, the limiter lets it through, and its path has this route.
  pub record IsRouted (e : Endpoint) (id : String) : Type 0 where
    pub segments : List String
    pub is_path : segments_of r.path ≡ some segments
    pub is_route : find_route routes r.method segments ≡ found e id
    pub no_preflight : str_eq r.method "OPTIONS" ≡ false
    pub in_limit :
        (middleware x.limits m.general m.strict m.general_now m.strict_now (call_of r) v.buckets).0
        ≡ served

  abbrev is_served : Passed → Bool
  is_served served = true
  is_served rate_limited = false

  passed-reply :
      (p : Passed × Buckets) → p.0 ≡ served → (passed x m r p v).0 ≡ (mux x m r v.world).0
  passed-reply (served, s) h = refl
  passed-reply (rate_limited, s) h = let no = ap is_served h in cc

  passed-world :
      (p : Passed × Buckets) → p.0 ≡ served → (passed x m r p v).1.world ≡ (mux x m r v.world).1
  passed-world (served, s) h = refl
  passed-world (rate_limited, s) h = let no = ap is_served h in cc

  pub serve-world :
      (e : Endpoint) (id : String)
      → IsRouted e id
      → (serve x m r v).1.world ≡ (handle x m r e id v.world).1
  unfolding serve log_requests limited mux
  serve-world e id h = rw h.no_preflight (
      passed-world
        (middleware x.limits m.general m.strict m.general_now m.strict_now (call_of r) v.buckets)
        h.in_limit
      ∙ rw (h.is_path) (rw h.is_route refl))

  pub serve-reply :
      (e : Endpoint) (id : String)
      → IsRouted e id
      → (serve x m r v).0.reply ≡ (handle x m r e id v.world).0
  unfolding serve log_requests limited mux
  serve-reply e id h = rw h.no_preflight (
      passed-reply
        (middleware x.limits m.general m.strict m.general_now m.strict_now (call_of r) v.buckets)
        h.in_limit
      ∙ rw (h.is_path) (rw h.is_route refl))

module _ (x : Setup) (m : Meets) (r : Http) (v : Service) (clock : Site → ℕ) (fresh : ℕ)
    (user : String) where
  -- Where no preflight, no limit and no guard stands in the way and none of the booking's calls fails, a
  -- request that the routes hand to createBooking, with a valid token of a user with an account and a
  -- well formed body that passes the sale gate and the quotas, for seats that are free in Redis and in
  -- the tables, is answered 201 with its order.
  pub book_over_http :
      (b : Request)
      → m.env ≡ calm clock fresh
      → IsRouted x m r v create_booking ""
      → bearer x m r ≡ lets user
      → IsChecked (decode_json x.json.booking r.body) b
      → IsAdmitted x.uuids x.app (calm clock fresh) user v.world.db b
      → 0 < x.app.hold_ttl
      → any
          (Redis.exists v.world.redis (clock run_hold))
          (keys x.uuids x.app (calm clock fresh) user b)
        ≡ false
      → IsFree x.uuids x.app clock fresh user v.world.db b
      → (serve x m r v).0.reply
        ≡ answered
            (record { status = 201; body = booked fresh (clock begin_tx + 1000 * x.app.hold_ttl) })
  unfolding handle
  book_over_http b e h g c a p k f =
      serve-reply x m r v create_booking "" h
      ∙ rw (g, e)
          (ap answered (
            create_booking-progress x.uuids x.app clock fresh user
              (decode_json x.json.booking r.body) b v.world c a p k f))

  -- Where no preflight, no limit and no guard stands in the way and none of its calls fails, on
  -- consistent tables, a request that the routes hand to payOrder, of the caller's own pending order, in
  -- time and with items that come to less than 100,000,000.00, under a key that no payment has, is
  -- answered with the charge of the sum of its items.
  pub pay_over_http :
      (id : String) (o : Order)
      → m.env ≡ calm clock fresh
      → IsConsistent v.world.db
      → IsRouted x m r v pay_order id
      → bearer x m r ≡ lets user
      → is_uuid id ≡ true
      → str_eq r.idempotency_key "" ≡ false
      → any (λ p. str_eq p.idempotency_key r.idempotency_key) v.world.db.payments ≡ false
      → own_order x.uuids (calm clock fresh) user id r.idempotency_key v.world.db ≡ some o
      → o.status ≡ pending
      → clock lock_order ≤ o.expires_at
      → 0 < length (select (of_order (x.uuids.value id)) v.world.db.items)
      → sum_price (select (of_order (x.uuids.value id)) v.world.db.items) < 10000000000
      → (serve x m r v).0.reply
        ≡ answered (record {
          status = 200;
          body = charged id (sum_price (select (of_order (x.uuids.value id)) v.world.db.items));
        })
  unfolding handle
  pay_over_http id o e c h g i key new own p t n small =
      serve-reply x m r v pay_order id h
      ∙ rw (g, e)
          (ap answered (
            pay_order-progress x.uuids clock fresh user id r.idempotency_key v.world o c i key new
              own p t n small))
