-- ===== src/RateLimit/Tests.antt =====
-- The theorems on the limiter at concrete rates, clocks and requests.
use ticket_booking.Base.{
  ◌+◌, ◌-◌, ◌*◌, ◌≤◌, ◌↔◌, ◌≡◌, arith, none, some, true, false, [], ◌∷◌, ◌⊎◌, fine,
}
use Prim.Native.String.{◌++◌}
use ticket_booking.RateLimit.{Buckets, token}
use ticket_booking.RateLimit.Bound.{grants, last_time, grants_bound}
use ticket_booking.RateLimit.Middleware.{
  Limits, Call, client_ip, is_probe, is_credential, IsShort, middleware, general_allow,
  rate_limited, limited_iff,
}

abbrev limits : Limits
limits = record { rps = 25000; burst = 50000000; auth_rps = 1000; auth_burst = 8000000 }

abbrev login : Call
login = record {
  method = "POST";
  path = "/api/login";
  remote_addr = "10.0.0.1:9";
  host = some "10.0.0.1";
}

abbrev no_buckets : Buckets
no_buckets k = none

-- 25 a second, a burst of 2, four requests in 80 ms.
grants_bound_example :
    (grants 25000 2000000 none (0 ∷ 0 ∷ 40 ∷ 80 ∷ [])).0 * token
    ≤ 2000000 + (last_time 25000 2000000 0 (0 ∷ 40 ∷ 80 ∷ []) - 0) * 25000
grants_bound_example =
    grants_bound 25000 2000000 0 (0 ∷ 40 ∷ 80 ∷ []) (omega arith)
      (omega arith, (omega arith, (omega arith, tt)))

limited_iff_example : ((middleware limits fine fine 0 1 login no_buckets).0 ≡ rate_limited) ↔ (
    (is_probe login ≡ false)
    × (IsShort fine 0 ("rl:" ++ client_ip login) limits.rps limits.burst no_buckets
        ⊎ ((is_credential login ≡ true)
            × IsShort fine 1
                ("rlauth:" ++ client_ip login)
                limits.auth_rps
                limits.auth_burst
                (general_allow limits fine fine 0 1 login no_buckets).1)))
limited_iff_example = limited_iff limits fine fine 0 1 login no_buckets
