-- ===== src/Server/Effect.antt =====
-- What any HTTP request does to the tables, and on whose authority.
use ticket_booking.Base.{String, ◌≡◌, refl, Option, none, some, List, inl, inr, str_eq, if_cases}
use ticket_booking.Db.{Db}
use ticket_booking.World.{World, Response}
use ticket_booking.Booking.{Request}
use ticket_booking.Booking
use ticket_booking.Booking.Body.{IsChecked}
use ticket_booking.Booking.Admission.{IsAdmitted}
use ticket_booking.Booking.Effect.{Placed}
use ticket_booking.Booking.Answer.{Answered, create_booking_effect}
use ticket_booking.Payment
use ticket_booking.Payment.Effect.{Charged}
use ticket_booking.Payment.Answer.{Settled, pay_order_effect}
use ticket_booking.Cancel
use ticket_booking.Cancel.Effect.{Cancelled, Dropped, cancel_order_effect}
use ticket_booking.Admin.Tables.{Change}
use ticket_booking.Admin.Handlers
use ticket_booking.Admin.Effect.{Made, Opened, create_admin_event_effect}
use ticket_booking.Admin.Update.{Updated, with_change, patch_admin_event_effect}
use ticket_booking.Accounts.{Guarded, lets, turns_away}
use ticket_booking.Accounts.Kept.{OnlyUsers, db-login, register-OnlyUsers}
use ticket_booking.Server.{Http, Setup, Meets, Reply, Service, no_content, decode_json}
use ticket_booking.Server.Routes.{
  Found, found, wrong_method, unknown, routes, find_route, segments_of, Endpoint, healthz, readyz,
  register, login, refresh, logout, list_events, list_seats, list_orders, create_booking, pay_order,
  cancel_order, list_admin_events, create_admin_event, patch_admin_event,
}
use ticket_booking.RateLimit.{Buckets}
use ticket_booking.RateLimit.Middleware.{Passed, served, rate_limited, middleware}
use ticket_booking.Server.Serve.{call_of, routed, mux_at, mux, passed, limited, log_requests, serve}
use ticket_booking.Server.Handle.{guarded, bearer, admin, visit, handle}

module _ (x : Setup) (m : Meets) (r : Http) (w : World) where
  pub data Effect (db' : Db) : Type 0 where
    stays : db' ≡ w.db → Effect db'
    -- an account that registers
    joins : OnlyUsers w.db db' → Effect db'
    -- the bearer of a valid token books, pays or cancels, in his own name
    books :
        (user : String) (b : Request)
        → bearer x m r ≡ lets user
        → IsChecked (decode_json x.json.booking r.body) b
        → IsAdmitted x.uuids x.app m.env user w.db b
        → Placed x.uuids x.app m.env user b w.db db'
        → Effect db'
    pays :
        (user id : String)
        → bearer x m r ≡ lets user
        → Charged x.uuids m.env user id r.idempotency_key w.db db'
        → Effect db'
    cancels :
        (user id : String)
        → bearer x m r ≡ lets user
        → Cancelled x.uuids m.env user id w.db db'
        → Effect db'
    -- an administrator adds an event or changes one
    creates :
        (user : String)
        → admin x m r w ≡ lets user
        → Made x.uuids x.parse_time m.env m.draws (decode_json x.json.new_event r.body) w.db db'
        → Effect db'
    patches :
        (user id : String) (c : Change)
        → admin x m r w ≡ lets user
        → db' ≡ with_change x.uuids x.parse_time m.env m.draws id c w.db
        → Effect db'

  -- A guarded handler, by what its guard says.
  pub guarded_lem :
      (P : Reply × World → Type 0) (g : Guarded) (k : String → World → Reply × World)
      → ((reply : Reply) → P (reply, w))
      → ((user : String) → g ≡ lets user → P (k user w))
      → P (guarded g k w)
  guarded_lem P (turns_away status code) k h l = h _
  guarded_lem P (lets user) k h l = l user refl

  booked_lem :
      (user : String)
      → bearer x m r ≡ lets user
      → (a : Response × World)
      → Answered x.uuids x.app m.env user (decode_json x.json.booking r.body) w a
      → Effect a.1.db
  booked_lem user g (resp, w') (inl (n, same)) = stays same
  booked_lem user g (resp, w') (inr (b, c, a, p, q)) = books user b g c a p

  paid_lem :
      (user id : String)
      → bearer x m r ≡ lets user
      → (a : Response × World) → Settled x.uuids m.env user id r.idempotency_key w a
      → Effect a.1.db
  paid_lem user id g (resp, w') (inl (n, same)) = stays same
  paid_lem user id g (resp, w') (inr (c, q)) = pays user id g c

  cancelled_lem :
      (user id : String)
      → bearer x m r ≡ lets user
      → (a : Response × World) → Dropped x.uuids m.env user id w a
      → Effect a.1.db
  cancelled_lem user id g (resp, w') (inl (n, same)) = stays same
  cancelled_lem user id g (resp, w') (inr (c, q)) = cancels user id g c

  created_lem :
      (user : String)
      → admin x m r w ≡ lets user
      → (a : Response × World)
      → Opened x.uuids x.parse_time m.env m.draws (decode_json x.json.new_event r.body) w a
      → Effect a.1.db
  created_lem user g (resp, w') (t, inl (n, same)) = stays same
  created_lem user g (resp, w') (t, inr (made, q)) = creates user g made

  patched_lem :
      (user id : String)
      → admin x m r w ≡ lets user
      → (a : Response × World)
      → Updated x.uuids x.parse_time m.env m.draws id (decode_json x.json.patch r.body) w a
      → Effect a.1.db
  patched_lem user id g (resp, w') (inl (n, same)) = stays same
  patched_lem user id g (resp, w') (inr (b, c, k, asked, e, q)) = patches user id c g e

  handle-Effect : (e : Endpoint) (id : String) → Effect (handle x m r e id w).1.db
  unfolding handle
  handle-Effect healthz id = stays refl
  handle-Effect readyz id = stays refl
  handle-Effect register id = joins (
      register-OnlyUsers x.uuids x.bcrypt x.to_lower x.digest x.difficulty x.sign x.tokens
        (visit x m r) w)
  handle-Effect login id =
      stays
        (db-login x.uuids x.bcrypt x.to_lower x.digest x.difficulty x.sign x.tokens (visit x m r) w)
  handle-Effect refresh id = stays refl
  handle-Effect logout id = stays refl
  handle-Effect list_events id = stays refl
  handle-Effect list_seats id = stays refl
  handle-Effect list_orders id =
      guarded_lem (λ a. Effect a.1.db) (bearer x m r) _ (λ _. stays refl) (λ user g. stays refl)
  handle-Effect create_booking id =
      guarded_lem (λ a. Effect a.1.db) (bearer x m r) _ (λ _. stays refl)
        (λ user g.
          booked_lem user g
            (Booking.create_booking x.uuids x.app m.env user (decode_json x.json.booking r.body) w)
            (create_booking_effect x.uuids x.app m.env user _ w))
  handle-Effect pay_order id =
      guarded_lem (λ a. Effect a.1.db) (bearer x m r) _ (λ _. stays refl)
        (λ user g.
          paid_lem user id g (Payment.pay_order x.uuids m.env user id r.idempotency_key w)
            (pay_order_effect x.uuids m.env user id _ w))
  handle-Effect cancel_order id =
      guarded_lem (λ a. Effect a.1.db) (bearer x m r) _ (λ _. stays refl)
        (λ user g.
          cancelled_lem user id g (Cancel.cancel_order x.uuids m.env user id w)
            (cancel_order_effect x.uuids m.env user id w))
  handle-Effect list_admin_events id =
      guarded_lem (λ a. Effect a.1.db) (admin x m r w) _ (λ _. stays refl) (λ user g. stays refl)
  handle-Effect create_admin_event id =
      guarded_lem (λ a. Effect a.1.db) (admin x m r w) _ (λ _. stays refl)
        (λ user g.
          created_lem user g
            (Handlers.create_admin_event x.uuids x.parse_time m.env m.draws
              (decode_json x.json.new_event r.body) w)
            (create_admin_event_effect x.uuids x.parse_time m.env m.draws _ w))
  handle-Effect patch_admin_event id =
      guarded_lem (λ a. Effect a.1.db) (admin x m r w) _ (λ _. stays refl)
        (λ user g.
          patched_lem user id g
            (Handlers.patch_admin_event x.uuids x.parse_time m.env m.draws id
              (decode_json x.json.patch r.body) w)
            (patch_admin_event_effect x.uuids x.parse_time m.env m.draws id _ w))

  routed-Effect : (f : Found) → Effect (routed x m r f w).1.db
  routed-Effect (found e id) = handle-Effect e id
  routed-Effect wrong_method = stays refl
  routed-Effect unknown = stays refl

  mux-Effect : Effect (mux x m r w).1.db
  unfolding mux
  mux-Effect = go (segments_of r.path)
    where
      go : (o : Option (List String)) → Effect (mux_at x m r o w).1.db
      go none = stays refl
      go (some segments) = routed-Effect (find_route routes r.method segments)

module _ (x : Setup) (m : Meets) (r : Http) (v : Service) where
  limited-Effect : Effect x m r v.world (limited x m r v).1.world.db
  unfolding limited
  limited-Effect =
      go (middleware x.limits m.general m.strict m.general_now m.strict_now (call_of r) v.buckets)
    where
      go : (p : Passed × Buckets) → Effect x m r v.world (passed x m r p v).1.world.db
      go (rate_limited, s) = stays refl
      go (served, s) = mux-Effect x m r v.world

  -- Whatever an HTTP request brings and whichever of its calls fail, it does one of these to the tables.
  -- It leaves them alone, or changes the table of users only. Or its bearer token is valid for a user, who
  -- passed every guard and books seats, pays for his own order or cancels it, in his own name. Or the
  -- token is an administrator's by the table of users at that moment, who adds an event with its seats
  -- or changes one event.
  pub serve-Effect : Effect x m r v.world (serve x m r v).1.world.db
  unfolding serve log_requests
  serve-Effect =
      if_cases (λ (a : Reply × Service). Effect x m r v.world a.1.world.db)
        (str_eq r.method "OPTIONS") (no_content, v) (log_requests x m r v) (λ _. stays refl)
        (λ _. limited-Effect)
