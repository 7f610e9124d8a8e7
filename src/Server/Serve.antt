-- ===== src/Server/Serve.antt =====
-- The chain `cors(logRequests(rl.middleware(mux)))` of api/main.go around the handlers.
use ticket_booking.Base.{String, Option, none, some, List, [], ◌∷◌, ◌++◌, str_eq, if◌then◌else◌}
use ticket_booking.World.{World}
use ticket_booking.RateLimit.{Buckets}
use ticket_booking.RateLimit.Middleware.{Call, Passed, served, rate_limited, middleware}
use ticket_booking.Server.{
  Http, Setup, Meets, Reply, Service, unrouted, failed, no_content, status_of,
}
use ticket_booking.Server.Routes.{
  Found, found, wrong_method, unknown, routes, find_route, segments_of,
}
use ticket_booking.Server.Handle.{handle}

-- The three headers that `cors` sets on every answer.
pub record Answer : Type 0 where
  pub allow_origin : String
  pub allow_methods : String
  pub allow_headers : String
  pub reply : Reply

abbrev pub call_of : Http → Call
call_of r = record { method = r.method; path = r.path; remote_addr = r.remote_addr; host = r.host }

module _ (x : Setup) (m : Meets) (r : Http) where
  abbrev pub routed : Found → World → Reply × World
  routed (found e id) w = handle x m r e id w
  routed wrong_method w = (unrouted 405, w)
  routed unknown w = (unrouted 404, w)

  abbrev pub mux_at : Option (List String) → World → Reply × World
  mux_at none w = (unrouted 301, w)
  mux_at (some segments) w = routed (find_route routes r.method segments) w

  unfoldable pub mux : World → Reply × World
  mux w = mux_at (segments_of r.path) w

  abbrev pub passed : Passed × Buckets → Service → Reply × Service
  passed (rate_limited, s) v = (failed 429 "rate_limited", record v { buckets = s })
  passed (served, s) v =
      let (reply, w) = mux v.world in (reply, record v { world = w; buckets = s })

  unfoldable pub limited : Service → Reply × Service
  limited v =
      passed
        (middleware x.limits m.general m.strict m.general_now m.strict_now (call_of r) v.buckets) v

  -- The status that `statusWriter` has seen, 200 if none was written.
  abbrev pub logged : Reply × Service → Reply × Service
  logged (reply, v) = (
    reply,
    record v {
      log = v.log ++ record { method = r.method; path = r.path; status = status_of reply } ∷ [];
    },
  )

  unfoldable pub log_requests : Service → Reply × Service
  log_requests v = logged (limited v)

  abbrev pub with_cors : Reply × Service → Answer × Service
  with_cors (reply, v) = (
    record {
      allow_origin = x.cors_origin;
      allow_methods = "GET, POST, PATCH, DELETE, OPTIONS";
      allow_headers =
          "Authorization, Content-Type, Idempotency-Key, X-PoW-Challenge, X-PoW-Solution";
      reply = reply;
    },
    v,
  )

  unfoldable pub serve : Service → Answer × Service
  serve v = with_cors (if str_eq r.method "OPTIONS" then (no_content, v) else log_requests v)
