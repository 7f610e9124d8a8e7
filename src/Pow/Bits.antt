-- ===== src/Pow/Bits.antt =====
-- `leadingZeroBits` counts the zero bits in front of the digest, read as one big-endian number.
use native.Mathlib.Nat.{pow-suc, mul-le-mul_left, mul-le-mul_right, one-le-pow, pow-le-pow_right}
use native.Mathlib.Decide.{dec_le}
use native.Mathlib.Numerals.{towards_suc}
use ticket_booking.Base.{
  ℕ, suc, ◌+◌, ◌*◌, ◌^◌, ◌≤◌, ◌<◌, ◌≡◌, ◌↔◌, false, ap, List, [], ◌∷◌, arith, ◌==◌, length, All,
  inl, inr, Bool-cases, ==→eq, ◌∙◌,
}
use ticket_booking.Pow.{leading_zeros8, count_zero_bits, leading_zero_bits}

-- The number that the bytes spell, most significant first.
pub big_endian : List ℕ → ℕ
big_endian [] = 0
big_endian (x ∷ xs) = x * 256 ^ length xs + big_endian xs

abbrev pub IsBytes : List ℕ → Type 0
IsBytes = All (λ x. x < 256)

count_from : (n : ℕ) (xs : List ℕ) → count_zero_bits n xs ≡ n + count_zero_bits 0 xs
unfolding count_zero_bits
count_from n [] = omega arith
count_from n (x ∷ xs) = ground (arith, count_from (n + 8) xs, count_from 8 xs)

big_endian_lt : (xs : List ℕ) → All (λ x. x < 256) xs → big_endian xs < 256 ^ length xs
unfolding big_endian
big_endian_lt [] h = omega arith
big_endian_lt (x ∷ xs) (h, t) =
    omega (arith, big_endian_lt xs t, pow-suc 256 (length xs), mul-le-mul_right (256 ^ length xs) h)

-- A byte with `l` leading zeros lies between two powers of two.
byte_zeros :
    (x : ℕ)
    → x < 256
    → (x == 0) ≡ false
    → ((x + 1) * 2 ^ leading_zeros8 x ≤ 256) × (256 ≤ x * 2 ^ (leading_zeros8 x + 1))
unfolding leading_zeros8
byte_zeros x h n = ground arith

-- The leading byte decides.
lead :
    (x p v l : ℕ)
    → 0 < l
    → (x + 1) * l ≤ 256
    → 256 ≤ x * (2 * l)
    → v < p
    → ((x * p + v) * l < 256 * p) × (256 * p ≤ (x * p + v) * (2 * l))
lead x p v l pos h k e =
    let next : x * p + v + 1 ≤ (x + 1) * p = omega (arith, e) in
    (
      omega (arith, pos, mul-le-mul_right l next, mul-le-mul_right p h),
      omega (arith, mul-le-mul_right p k),
    )

pow_shift : (s : ℕ) → (2 ^ (8 + s) ≡ 256 * 2 ^ s) × (2 ^ (8 + s + 1) ≡ 256 * 2 ^ (s + 1))
pow_shift s =
    (shift s, ap (λ n. 2 ^ n) {x = 8 + s + 1} {y = 8 + (s + 1)} (omega arith) ∙ shift (s + 1))
  where
    shift : (s : ℕ) → 2 ^ (8 + s) ≡ 256 * 2 ^ s
    shift s = ap (λ n. 2 ^ n) {x = 8 + s} {y = s + 8} (omega arith) ∙ simp towards_suc (omega arith)

pow_twice : (s : ℕ) → 2 ^ (s + 1) ≡ 2 * 2 ^ s
pow_twice s = simp towards_suc (omega arith)

IsExact : ℕ → ℕ → ℕ → Type 0
IsExact v l k = (v * 2 ^ l < 256 ^ k) × (l < 8 * k → 256 ^ k ≤ v * 2 ^ (l + 1))

zero_byte : (v l k : ℕ) → IsExact v l k → IsExact v (8 + l) (suc k)
unfolding IsExact
zero_byte v l k (h, e) =
    let (s, t) = pow_shift l in
    (
      rw s (omega (arith, h, pow-suc 256 k)),
      λ q. rw t (omega (arith, e (omega (arith, q)), pow-suc 256 k)),
    )

lead_byte :
    (x v k : ℕ)
    → x < 256
    → (x == 0) ≡ false
    → v < 256 ^ k
    → IsExact (x * 256 ^ k + v) (leading_zeros8 x) (suc k)
unfolding IsExact
lead_byte x v k h n e =
    let (low, high) = byte_zeros x h n in
    let (a, b) =
      lead x (256 ^ k) v (2 ^ leading_zeros8 x) (one-le-pow (leading_zeros8 x) 2 (omega arith)) low
        (rw pow_twice at high) e in
    (omega (arith, a, pow-suc 256 k), λ _. rw pow_twice (omega (arith, b, pow-suc 256 k)))

from_zero : (n : ℕ) → 0 + n ≡ n
from_zero n = omega arith

no_lead : (p v : ℕ) → 0 * p + v ≡ v
no_lead p v = omega arith

zeros-IsExact :
    (xs : List ℕ) → IsBytes xs → IsExact (big_endian xs) (leading_zero_bits xs) (length xs)
unfolding big_endian leading_zero_bits count_zero_bits
zeros-IsExact [] h = unfold IsExact in (omega arith, λ k. omega arith)
zeros-IsExact (x ∷ xs) (h, t) = elim (Bool-cases (x == 0)) [
  | inl e ↦
      rw (==→eq x 0 e, count_from 8 xs, no_lead (256 ^ length xs) (big_endian xs))
        (zero_byte _ _ _ (zeros-IsExact xs t))
  | inr e ↦
      rw (e, from_zero (leading_zeros8 x))
        (lead_byte x (big_endian xs) (length xs) h e (big_endian_lt xs t))
]

-- A digest has `d` zero bits in front exactly if its number is below 2 ^ (bits - d): times 2 ^ d it
-- stays below 256 ^ bytes.
pub zero_bits_iff :
    (xs : List ℕ) (d : ℕ)
    → IsBytes xs
    → d ≤ 8 * length xs
    → (d ≤ leading_zero_bits xs) ↔ (big_endian xs * 2 ^ d < 256 ^ length xs)
unfolding IsExact
zero_bits_iff xs d h k =
    let (low, high) = zeros-IsExact xs h in
    (
      λ le. omega (
        arith,
        low,
        mul-le-mul_left (big_endian xs)
            (pow-le-pow_right {n = 2} (omega arith) {j = leading_zero_bits xs} le),
      ),
      λ lt. elim (dec_le d (leading_zero_bits xs)) [
        | yes le ↦ le
        | no gt ↦ absurd (
            omega (
              arith,
              lt,
              high (omega (arith, k, gt)),
              mul-le-mul_left (big_endian xs) (
                  pow-le-pow_right {n = 2} (omega arith) {i = leading_zero_bits xs + 1} {j = d}
                    (omega (arith, gt))),
            ))
      ],
    )
