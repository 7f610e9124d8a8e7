-- ===== src/RateLimit/Middleware.antt =====
-- `redisLimiter.middleware` and `clientIP` of api/ratelimit.go. `net.SplitHostPort` of the peer's
-- address is an argument: the host, or `none` for its error.
use Prim.Native.String.{◌++◌}
use ticket_booking.Base.{
  ℕ, ◌<◌, ◌↔◌, String, ◌≡◌, Bool, true, false, ◌&&◌, ◌||◌, Option, none, some, ◌⊎◌, arith, str_eq,
  if◌then◌else◌, Fault, fine,
}
use ticket_booking.RateLimit.{Buckets, allow, refilled, alive, token}

pub record Limits : Type 0 where
  pub rps : ℕ
  pub burst : ℕ
  pub auth_rps : ℕ
  pub auth_burst : ℕ

pub record Call : Type 0 where
  pub method : String
  pub path : String
  pub remote_addr : String
  pub host : Option String

pub data Passed : Type 0 where
  served rate_limited : Passed

unfoldable pub client_ip : Call → String
client_ip r = elim r.host [ some host ↦ host | none ↦ r.remote_addr ]

abbrev pub is_probe : Call → Bool
is_probe r = str_eq r.path "/healthz" || str_eq r.path "/readyz"

abbrev pub is_credential : Call → Bool
is_credential r =
    str_eq r.method "POST" && (str_eq r.path "/api/login" || str_eq r.path "/api/register")

-- Redis answers, the limit is set, and the bucket has less than one token.
pub record IsShort (fault : Fault) (now : ℕ) (key : String) (rate burst : ℕ) (s : Buckets)
    : Type 0 where
  pub answers : fault ≡ fine
  pub rate_set : 0 < rate
  pub burst_set : 0 < burst
  pub short : refilled rate burst now (alive now (s key)) < token

pub allow_denies :
    (fault : Fault) (now : ℕ) (key : String) (rate burst : ℕ) (s : Buckets)
    → (allow fault now key rate burst s).0 ≡ false
    → IsShort fault now key rate burst s
unfolding allow
allow_denies fault now key rate burst s e = ground arith

pub short-denied :
    (fault : Fault) (now : ℕ) (key : String) (rate burst : ℕ) (s : Buckets)
    → IsShort fault now key rate burst s
    → (allow fault now key rate burst s).0 ≡ false
unfolding allow
short-denied fault now key rate burst s e = ground arith

module _ (l : Limits) (general auth : Fault) (now auth_now : ℕ) where
  unfoldable auth_limit : Call → Buckets → Passed × Buckets
  unfolding client_ip
  auth_limit r s =
      let (ok, s') = allow auth auth_now ("rlauth:" ++ client_ip r) l.auth_rps l.auth_burst s in
      if is_credential r then (if ok then served else rate_limited, s') else (served, s)

  unfoldable pub middleware : Call → Buckets → Passed × Buckets
  unfolding auth_limit
  middleware r s =
      let (ok, s') = allow general now ("rl:" ++ client_ip r) l.rps l.burst s in
      if is_probe r then (served, s) else if ok then auth_limit r s' else (rate_limited, s')

  pub general_allow : Call → Buckets → Bool × Buckets
  unfolding client_ip
  general_allow r s = allow general now ("rl:" ++ client_ip r) l.rps l.burst s

  -- A request is limited exactly if it is no probe and the general bucket of its peer has less than
  -- one token, or it is a POST of credentials and, after the general one, the stricter bucket has.
  pub limited_iff :
      (r : Call) (s : Buckets)
      → ((middleware r s).0 ≡ rate_limited) ↔ (
          (is_probe r ≡ false)
          × (IsShort general now ("rl:" ++ client_ip r) l.rps l.burst s
              ⊎ ((is_credential r ≡ true)
                  × IsShort auth auth_now
                      ("rlauth:" ++ client_ip r)
                      l.auth_rps
                      l.auth_burst
                      (general_allow r s).1)))
  unfolding middleware general_allow
  limited_iff r s = (forth, back)
    where
      forth :
          (middleware r s).0 ≡ rate_limited
          → (is_probe r ≡ false)
            × (IsShort general now ("rl:" ++ client_ip r) l.rps l.burst s
                ⊎ ((is_credential r ≡ true)
                    × IsShort auth auth_now
                        ("rlauth:" ++ client_ip r)
                        l.auth_rps
                        l.auth_burst
                        (general_allow r s).1))
      forth e = ground (
        arith,
        allow_denies general now ("rl:" ++ client_ip r) l.rps l.burst s,
        allow_denies auth auth_now ("rlauth:" ++ client_ip r) l.auth_rps l.auth_burst
            (general_allow r s).1,
      )

      back :
          (is_probe r ≡ false)
            × (IsShort general now ("rl:" ++ client_ip r) l.rps l.burst s
                ⊎ ((is_credential r ≡ true)
                    × IsShort auth auth_now
                        ("rlauth:" ++ client_ip r)
                        l.auth_rps
                        l.auth_burst
                        (general_allow r s).1))
          → (middleware r s).0 ≡ rate_limited
      back e = ground (
        arith,
        short-denied general now ("rl:" ++ client_ip r) l.rps l.burst s,
        short-denied auth auth_now ("rlauth:" ++ client_ip r) l.auth_rps l.auth_burst
            (general_allow r s).1,
      )
