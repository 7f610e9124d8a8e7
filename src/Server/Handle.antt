-- ===== src/Server/Handle.antt =====
-- The handler behind each route of `main` in api/main.go, with its guard and the body it decodes.
use ticket_booking.Base.{String, if◌then◌else◌}
use ticket_booking.World.{World, Response}
use ticket_booking.World
use ticket_booking.Redis.{Store}
use ticket_booking.Booking
use ticket_booking.Payment
use ticket_booking.Cancel
use ticket_booking.Admin.Handlers
use ticket_booking.Sessions
use ticket_booking.Accounts
use ticket_booking.Accounts.{Visit, Guarded, lets, turns_away}
use ticket_booking.Listings
use ticket_booking.Listings.Catalog
use ticket_booking.Listings.Orders
use ticket_booking.Server.{
  Http, Setup, Meets, Reply, text, failed, answered, account, session, seat_map, on_sale, my_orders,
  dashboard, logged_out, decode_json,
}
use ticket_booking.Server.Routes.{
  Endpoint, healthz, readyz, register, login, refresh, logout, list_events, list_seats, list_orders,
  create_booking, pay_order, cancel_order, list_admin_events, create_admin_event, patch_admin_event,
}

abbrev pub shows : {A : Type 0} → (A → Reply) → A × World → Reply × World
shows f (a, w) = (f a, w)

-- A guard in front of a handler.
abbrev pub guarded : Guarded → (String → World → Reply × World) → World → Reply × World
guarded (turns_away status code) k w = (failed status code, w)
guarded (lets user) k w = k user w

module _ (x : Setup) (m : Meets) (r : Http) where
  unfoldable pub readiness : Reply
  readiness =
      if World.failed m.pg_ping
      then failed 503 "postgres_down"
      else if World.failed m.redis_ping
      then failed 503 "redis_down"
      else text "ready"

  abbrev pub visit : Visit
  visit = record {
    headers = r.pow;
    body = decode_json x.json.credentials r.body;
    gate = m.gate;
    tokens = m.tokens;
    query = m.query;
    salt = m.salt;
    fresh = m.fresh_user;
  }

  abbrev pub with_redis : World → Sessions.Answer × Store → Reply × World
  with_redis w (a, s) = (session a, record w { redis = s })

  abbrev pub bearer : Guarded
  bearer = Accounts.auth x.verify r.authorization

  abbrev pub admin : World → Guarded
  admin w = Accounts.admin_auth x.verify x.uuids m.admin_row w.db.users r.authorization

  -- The handler of a route behind its guard, with the id that its path has.
  unfoldable pub handle : Endpoint → String → World → Reply × World
  unfolding readiness
  handle healthz id w = (text "ok", w)
  handle readyz id w = (readiness, w)
  handle register id w =
      shows account (
        Accounts.register x.uuids x.bcrypt x.to_lower x.digest x.difficulty x.sign x.tokens visit w)
  handle login id w =
      shows account
        (Accounts.login x.uuids x.bcrypt x.to_lower x.digest x.difficulty x.sign x.tokens visit w)
  handle refresh id w =
      with_redis w (
        Sessions.refresh x.sign x.tokens m.tokens (decode_json x.json.refresh_token r.body) w.redis)
  handle logout id w = (
    logged_out,
    record w {
      redis =
          Sessions.logout x.sign x.tokens m.tokens (decode_json x.json.refresh_token r.body)
            w.redis;
    },
  )
  handle list_events id w = (on_sale (Catalog.list_events m.rows w), w)
  handle list_seats id w =
      (seat_map (Listings.list_seats x.uuids x.collation.by_seat_no m.seats id w), w)
  handle list_orders id w =
      guarded bearer
        (λ user w. (my_orders (Orders.list_orders x.collation x.uuids m.rows user w), w)) w
  handle create_booking id w =
      guarded bearer
        (λ user w.
          shows answered
            (Booking.create_booking x.uuids x.app m.env user (decode_json x.json.booking r.body) w))
        w
  handle pay_order id w =
      guarded bearer
        (λ user w. shows answered (Payment.pay_order x.uuids m.env user id r.idempotency_key w)) w
  handle cancel_order id w =
      guarded bearer (λ user w. shows answered (Cancel.cancel_order x.uuids m.env user id w)) w
  handle list_admin_events id w =
      guarded (admin w) (λ user w. (dashboard (Catalog.list_admin_events m.rows w), w)) w
  handle create_admin_event id w =
      guarded (admin w)
        (λ user w. shows answered (
          Handlers.create_admin_event x.uuids x.parse_time m.env m.draws
            (decode_json x.json.new_event r.body) w))
        w
  handle patch_admin_event id w =
      guarded (admin w)
        (λ user w. shows answered (
          Handlers.patch_admin_event x.uuids x.parse_time m.env m.draws id
            (decode_json x.json.patch r.body) w))
        w
