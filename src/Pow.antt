-- ===== src/Pow.antt =====
-- api/pow.go: the proof of work in front of the credential endpoints. SHA-256 and hexadecimal
-- encoding are a parameter, `digest challenge solution` for sha256("<challenge>:<solution>").
pub mod Bits
pub mod SingleUse
pub mod Tests
use Prim.Native.String.{◌++◌}
use ticket_booking.Base.{
  ℕ, ◌+◌, String, Bool, true, false, ◌||◌, Option, none, some, List, [], ◌∷◌, ltb, leb, ◌==◌,
  str_eq, if◌then◌else◌, Fault, fine, refused, reply_lost,
}
use ticket_booking.Redis
use ticket_booking.Redis.{Store}

-- bits.LeadingZeros8
pub leading_zeros8 : ℕ → ℕ
leading_zeros8 x =
    if ltb x 1
    then 8
    else if ltb x 2
    then 7
    else if ltb x 4
    then 6
    else if ltb x 8
    then 5
    else if ltb x 16
    then 4
    else if ltb x 32
    then 3
    else if ltb x 64
    then 2
    else if ltb x 128
    then 1
    else 0

-- The loop of `leadingZeroBits`, with its counter.
pub count_zero_bits : ℕ → List ℕ → ℕ
unfolding leading_zeros8
count_zero_bits n [] = n
count_zero_bits n (x ∷ xs) =
    let rest = count_zero_bits (n + 8) xs in if x == 0 then rest else n + leading_zeros8 x

pub leading_zero_bits : List ℕ → ℕ
leading_zero_bits = count_zero_bits 0

pub pow_key : String → String
pow_key challenge = "pow:" ++ challenge

-- The `X-PoW-…` headers of a request.
pub record Headers : Type 0 where
  pub challenge : String
  pub solution : String

-- Let through, or 400 with a code.
pub data Gate : Type 0 where
  proceed : Gate
  stopped : String → Gate

-- The calls of one gate: GETDEL, and the SET of the fresh challenge.
pub record Calls : Type 0 where
  pub get_del : Fault
  pub set_fresh : Fault
  pub fresh : String
  pub now : ℕ

module _ (digest : String → String → List ℕ) (difficulty : ℕ) (c : Calls) where
  pub pow_solved : String → String → Bool
  pow_solved challenge solution = leb difficulty (leading_zero_bits (digest challenge solution))

  -- `issuePoWChallenge`: for two minutes.
  pub issue_challenge : Store → Store
  unfolding pow_key
  issue_challenge r = elim c.set_fresh [
    | refused ↦ r
    | _ ↦ Redis.put (pow_key c.fresh) "1" 120 c.now r
  ]

  abbrev pub fail : String → Store → Gate × Store
  fail code r = (stopped code, issue_challenge r)

  abbrev pub solved : Headers → Option String → Store → Gate × Store
  solved h none r = fail "pow_invalid" r
  solved h (some v) r =
      if str_eq v "1"
      then if pow_solved h.challenge h.solution then (proceed, r) else fail "pow_invalid" r
      else fail "pow_invalid" r

  -- GETDEL of the challenge, by its fate.
  abbrev pub spend : Headers → Fault → Option String × Store → Store → Gate × Store
  spend h fine (v, r') r = solved h v r'
  spend h refused (v, r') r = fail "pow_invalid" r
  spend h reply_lost (v, r') r = fail "pow_invalid" r'

  unfoldable pub check_pow : Headers → Store → Gate × Store
  unfolding pow_solved issue_challenge pow_key
  check_pow h r =
      if difficulty == 0
      then (proceed, r)
      else if str_eq h.challenge "" || str_eq h.solution ""
      then fail "pow_required" r
      else spend h c.get_del (Redis.get_del r c.now (pow_key h.challenge)) r
