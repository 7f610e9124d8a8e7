-- ===== src/RateLimit.antt =====
-- api/ratelimit.go: the token bucket of the Lua script `tokenBucketScript`, and the middleware.
-- The script's doubles are exact scaled integers here: a rate in thousandths of a token per second,
-- an amount of tokens in millionths, so that a millisecond at a rate adds exactly their product.
-- Rounding of doubles is not modelled.
pub mod Bound
pub mod Middleware
pub mod Settings
pub mod Tests
use ticket_booking.Base.{
  ℕ, ◌+◌, ◌-◌, ◌*◌, ◌/◌, min, String, Bool, true, false, ◌&&◌, ◌||◌, Option, none, some, ltb, leb,
  ◌==◌, str_eq, if◌then◌else◌, Fault, fine, refused, reply_lost,
}

-- The hash under a key, with its time to live.
pub record Bucket : Type 0 where
  pub tokens : ℕ
  pub ts : ℕ
  pub expires : ℕ

abbrev pub Buckets : Type 0
Buckets = String → Option Bucket

-- One token.
abbrev pub token : ℕ
token = 1000000

-- HMGET: a bucket that has run out of time is gone.
abbrev pub alive : ℕ → Option Bucket → Option Bucket
alive now none = none
alive now (some b) = if ltb now b.expires then some b else none

-- tokens = math.min(burst, tokens + math.max(0, now - ts) * rate / 1000.0)
abbrev pub refilled : ℕ → ℕ → ℕ → Option Bucket → ℕ
refilled rate burst now none = min burst burst
refilled rate burst now (some b) = min burst (b.tokens + (now - b.ts) * rate)

-- `tokenBucketScript` on the live bucket of its key.
unfoldable pub token_bucket : ℕ → ℕ → ℕ → ℕ → Option Bucket → ℕ × Bucket
token_bucket rate burst now ttl b =
    let tokens = refilled rate burst now (alive now b) in
    if leb token tokens
    then (1, record { tokens = tokens - token; ts = now; expires = now + 1000 * ttl })
    else (0, record { tokens = tokens; ts = now; expires = now + 1000 * ttl })

-- int64(burst/rps) + 60, in seconds
unfoldable pub bucket_ttl : ℕ → ℕ → ℕ
bucket_ttl rate burst = burst / (rate * 1000) + 60

abbrev pub store : Buckets → String → Bucket → Buckets
store s key b j = if str_eq key j then some b else s j

-- `allow`: on an error of Redis it fails open.
unfoldable pub allow : Fault → ℕ → String → ℕ → ℕ → Buckets → Bool × Buckets
unfolding token_bucket bucket_ttl
allow fault now key rate burst s =
    let (res, b) = token_bucket rate burst now (bucket_ttl rate burst) (s key) in
    if rate == 0 || burst == 0 then (true, s) else elim fault [
      | fine ↦ (res == 1, store s key b)
      | refused ↦ (true, s)
      | reply_lost ↦ (true, store s key b)
    ]
