-- ===== src/RateLimit/Settings.antt =====
-- `newRateLimiter` and `envFloat` of api/ratelimit.go. `strconv.ParseFloat` is a parameter that reads
-- a text in a unit, 1 / 1000 for a rate and 1 / 1000000 for a burst; what is not positive, which
-- `allow` takes for no limit, is 0.
use ticket_booking.Base.{ℕ, ◌*◌, String, Option, str_eq, if◌then◌else◌, get_or}
use ticket_booking.RateLimit.Middleware.{Limits}

-- `getenv` of api/main.go, over os.Getenv
abbrev pub getenv : (String → String) → String → String → String
getenv os key fallback = let v = os key in if str_eq v "" then fallback else v

module _ (os : String → String) (parse_float : ℕ → String → Option ℕ) where
  abbrev pub env_float : ℕ → String → ℕ → ℕ
  env_float unit key default = get_or (unit * default) (parse_float unit (getenv os key ""))

  unfoldable pub new_rate_limiter : Limits
  new_rate_limiter = record {
    rps = env_float 1000 "RATE_RPS" 500;
    burst = env_float 1000000 "RATE_BURST" 5000;
    auth_rps = env_float 1000 "AUTH_RATE_RPS" 100;
    auth_burst = env_float 1000000 "AUTH_RATE_BURST" 2000;
  }
