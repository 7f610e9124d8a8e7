-- ===== src/RateLimit/Bound.antt =====
-- How many requests one key is granted.
use ticket_booking.Base.{
  ℕ, ◌+◌, ◌-◌, ◌*◌, ◌/◌, ◌≤◌, ◌<◌, ◌≡◌, Option, none, some, List, [], ◌∷◌, arith,
}
use native.Mathlib.Nat.{div-add-mod, mod-lt, mul-le-mul_right}
use ticket_booking.RateLimit.{Bucket, alive, refilled, token, token_bucket, bucket_ttl}

module _ (rate burst : ℕ) where
  -- The script on one key at the times of a list: the number of grants, and the bucket left.
  pub grants : Option Bucket → List ℕ → ℕ × Option Bucket
  grants b [] = (0, b)
  grants b (now ∷ rest) =
      let (res, b') = token_bucket rate burst now (bucket_ttl rate burst) b in
      let (n, last) = grants (some b') rest in (res + n, last)

  -- The times do not run backwards, from `t` on.
  abbrev pub Increasing : ℕ → List ℕ → Type 0
  Increasing t [] = Unit
  Increasing t (now ∷ rest) = (t ≤ now) × Increasing now rest

  abbrev pub last_time : ℕ → List ℕ → ℕ
  last_time t [] = t
  last_time t (now ∷ rest) = last_time now rest

  -- A bucket that ran out of time would have been full: its loss grants nothing.
  evicted_full :
      (b : Bucket) (now : ℕ)
      → 0 < rate
      → b.expires ≡ b.ts + 1000 * bucket_ttl rate burst
      → b.expires ≤ now
      → burst ≤ (now - b.ts) * rate
  unfolding bucket_ttl
  evicted_full b now p e h =
      let q : ℕ = burst / (rate * 1000) in
      let waited : 1000 * (q + 60) ≤ now - b.ts = omega (arith, e, h) in
      omega (
        arith,
        mul-le-mul_right rate waited,
        div-add-mod burst (rate * 1000),
        mod-lt burst {m = rate * 1000} (omega arith),
      )

  -- Losing a bucket to its time to live changes nothing.
  refilled-alive :
      (b : Bucket) (now : ℕ)
      → 0 < rate
      → b.expires ≡ b.ts + 1000 * bucket_ttl rate burst
      → refilled rate burst now (alive now (some b)) ≡ refilled rate burst now (some b)
  refilled-alive b now p e = ground (arith, evicted_full b now p e)

  one_grant :
      (b : Bucket) (now : ℕ)
      → 0 < rate
      → b.expires ≡ b.ts + 1000 * bucket_ttl rate burst
      → let (res, b') = token_bucket rate burst now (bucket_ttl rate burst) (some b) in
        (res * token + b'.tokens ≤ b.tokens + (now - b.ts) * rate)
        × (b'.ts ≡ now)
        × (b'.expires ≡ b'.ts + 1000 * bucket_ttl rate burst)
  unfolding token_bucket
  one_grant b now p e = ground (arith, refilled-alive b now p e)

  now_le_last : (t : ℕ) (times : List ℕ) → Increasing t times → t ≤ last_time t times
  now_le_last t [] i = omega arith
  now_le_last t (now ∷ rest) (i, j) = omega (arith, now_le_last now rest j)

  -- The refill over two spans is the refill over both.
  spans : (a b c : ℕ) → a ≤ b → b ≤ c → (b - a) * rate + (c - b) * rate ≡ (c - a) * rate
  spans a b c h k = grind arith

  bound_from :
      (b : Bucket) (times : List ℕ)
      → 0 < rate
      → b.expires ≡ b.ts + 1000 * bucket_ttl rate burst
      → Increasing b.ts times
      → (grants (some b) times).0 * token ≤ b.tokens + (last_time b.ts times - b.ts) * rate
  unfolding grants
  bound_from b [] p e i = omega arith
  bound_from b (now ∷ rest) p e (i, t) =
      let (res, b') = token_bucket rate burst now (bucket_ttl rate burst) (some b) in
      let (granted, at, lives) = one_grant b now p e in
      let ih : (grants (some b') rest).0 * token
          ≤ b'.tokens + (last_time b'.ts rest - b'.ts) * rate =
        bound_from b' rest p lives (rw at t) in
      let later : (grants (some b') rest).0 * token
          ≤ b'.tokens + (last_time now rest - now) * rate =
        rw at at ih in
      omega (arith, later, spans b.ts now (last_time now rest) i (now_le_last now rest t))

  first_grant :
      (now : ℕ)
      → let (res, b') = token_bucket rate burst now (bucket_ttl rate burst) none in
        (res * token + b'.tokens ≤ burst)
        × (b'.ts ≡ now)
        × (b'.expires ≡ b'.ts + 1000 * bucket_ttl rate burst)
  unfolding token_bucket
  first_grant now = ground arith

  -- From the first request of a key on, while the caller's clock does not run backwards, the
  -- requests granted cost no more than the burst and what the time since then has refilled, also if
  -- the key runs out of time in between.
  pub grants_bound :
      (now : ℕ) (rest : List ℕ)
      → 0 < rate
      → Increasing now rest
      → (grants none (now ∷ rest)).0 * token ≤ burst + (last_time now rest - now) * rate
  unfolding grants
  grants_bound now rest p t =
      let (res, b') = token_bucket rate burst now (bucket_ttl rate burst) none in
      let (granted, at, lives) = first_grant now in
      let ih : (grants (some b') rest).0 * token
          ≤ b'.tokens + (last_time b'.ts rest - b'.ts) * rate =
        bound_from b' rest p lives (rw at t) in
      let later : (grants (some b') rest).0 * token
          ≤ b'.tokens + (last_time now rest - now) * rate =
        rw at at ih in
      omega (arith, later)

-- Where the callers' clocks disagree by the time of one token or more, a bucket of one token grants
-- two requests at one time: the lagging caller turns the bucket's time back.
pub skewed_clocks_overgrant :
    (rate early late : ℕ)
    → early ≤ late
    → token ≤ (late - early) * rate
    → (grants rate token none (late ∷ early ∷ late ∷ [])).0 ≡ 2
unfolding grants token_bucket bucket_ttl
skewed_clocks_overgrant rate early late h k = ground arith
