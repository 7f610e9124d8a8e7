-- ===== src/Server/TurnedBack.antt =====
-- The answers that the layers in front of the handlers give.
use ticket_booking.Base.{
  String, ◌≡◌, refl, Bool, true, false, Option, none, some, List, str_eq, if_cases,
}
use ticket_booking.World.{World}
use ticket_booking.RateLimit.{Buckets}
use ticket_booking.RateLimit.Middleware.{Passed, served, rate_limited, middleware}
use ticket_booking.Server.{Http, Setup, Meets, Reply, Service, no_content, unrouted, failed}
use ticket_booking.Server.Routes.{
  Endpoint, healthz, readyz, register, login, refresh, logout, list_events, list_seats, list_orders,
  create_booking, pay_order, cancel_order, list_admin_events, create_admin_event, patch_admin_event,
  Found, found, wrong_method, unknown, routes, find_route, segments_of,
}
use ticket_booking.Server.Effect.{guarded_lem}
use ticket_booking.Server.Handle.{bearer, admin, handle}
use ticket_booking.Server.Serve.{call_of, routed, mux_at, mux, passed, limited, log_requests, serve}

-- An answer that no handler has written: CORS's, the limiter's, the mux's, a guard's or a probe's.
abbrev pub is_outer : Reply → Bool
is_outer no_content = true
is_outer (unrouted status) = true
is_outer (failed status code) = true
is_outer _ = false

module _ (x : Setup) (m : Meets) (r : Http) where
  abbrev Unchanged : World → Reply × World → Type 0
  Unchanged w (reply, w') = is_outer reply ≡ true → w' ≡ w

  handle-Unchanged : (e : Endpoint) (id : String) (w : World) → Unchanged w (handle x m r e id w)
  unfolding handle
  handle-Unchanged healthz id w = λ _. refl
  handle-Unchanged readyz id w = λ _. refl
  handle-Unchanged register id w = λ h. cc
  handle-Unchanged login id w = λ h. cc
  handle-Unchanged refresh id w = λ h. cc
  handle-Unchanged logout id w = λ h. cc
  handle-Unchanged list_events id w = λ _. refl
  handle-Unchanged list_seats id w = λ _. refl
  handle-Unchanged list_orders id w =
      guarded_lem x m r w (λ a. Unchanged w a) (bearer x m r) _ (λ _ _. refl) (λ user _ h. cc)
  handle-Unchanged create_booking id w =
      guarded_lem x m r w (λ a. Unchanged w a) (bearer x m r) _ (λ _ _. refl) (λ user _ h. cc)
  handle-Unchanged pay_order id w =
      guarded_lem x m r w (λ a. Unchanged w a) (bearer x m r) _ (λ _ _. refl) (λ user _ h. cc)
  handle-Unchanged cancel_order id w =
      guarded_lem x m r w (λ a. Unchanged w a) (bearer x m r) _ (λ _ _. refl) (λ user _ h. cc)
  handle-Unchanged list_admin_events id w =
      guarded_lem x m r w (λ a. Unchanged w a) (admin x m r w) _ (λ _ _. refl) (λ user _ h. cc)
  handle-Unchanged create_admin_event id w =
      guarded_lem x m r w (λ a. Unchanged w a) (admin x m r w) _ (λ _ _. refl) (λ user _ h. cc)
  handle-Unchanged patch_admin_event id w =
      guarded_lem x m r w (λ a. Unchanged w a) (admin x m r w) _ (λ _ _. refl) (λ user _ h. cc)

  mux-Unchanged : (w : World) → Unchanged w (mux x m r w)
  unfolding mux
  mux-Unchanged w = go (segments_of r.path)
    where
      by_route : (f : Found) → Unchanged w (routed x m r f w)
      by_route (found e id) = handle-Unchanged e id w
      by_route wrong_method = λ _. refl
      by_route unknown = λ _. refl

      go : (o : Option (List String)) → Unchanged w (mux_at x m r o w)
      go none = λ _. refl
      go (some segments) = by_route (find_route routes r.method segments)

  abbrev Kept : Service → Reply × Service → Type 0
  Kept v (reply, v') = is_outer reply ≡ true → v'.world ≡ v.world

  limited-Unchanged : (v : Service) → Kept v (limited x m r v)
  unfolding limited
  limited-Unchanged v =
      go (middleware x.limits m.general m.strict m.general_now m.strict_now (call_of r) v.buckets)
    where
      go : (p : Passed × Buckets) → Kept v (passed x m r p v)
      go (rate_limited, s) = λ _. refl
      go (served, s) = mux-Unchanged v.world

  -- Where the answer comes from the layers in front of the handlers (the preflight of CORS, the limiter's
  -- 429, a path or a method without a route, a missing or invalid token, an account that is no
  -- administrator's) or from a probe that fails, nothing has happened to the tables, to Redis's holds
  -- and tokens or to the demand log.
  pub turned_back :
      (v : Service) → is_outer (serve x m r v).0.reply ≡ true → (serve x m r v).1.world ≡ v.world
  unfolding serve log_requests
  turned_back v =
      if_cases (λ a. Kept v a) (str_eq r.method "OPTIONS") (no_content, v) (log_requests x m r v)
        (λ _ _. refl) (λ _. limited-Unchanged v)
