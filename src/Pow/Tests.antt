-- ===== src/Pow/Tests.antt =====
-- The theorems on the proof of work at concrete digests and challenges.
use ticket_booking.Base.{
  ℕ, String, List, ◌*◌, ◌^◌, ◌≤◌, ◌<◌, ◌↔◌, ◌≡◌, ◌≢◌, refl, arith, some, none, [], ◌∷◌, length,
  fine, str_eq, if◌then◌else◌,
}
use ticket_booking.Redis
use ticket_booking.Redis.{Store}
use ticket_booking.Pow.{
  Headers, Calls, proceed, leading_zero_bits, leading_zeros8, count_zero_bits, check_pow,
  pow_solved, pow_key,
}
use ticket_booking.Pow.Bits.{big_endian, zero_bits_iff}
use ticket_booking.Pow.SingleUse.{accepted_once}

abbrev bytes : List ℕ
bytes = 0 ∷ 9 ∷ 255 ∷ []

zero_bits_iff_example :
    (12 ≤ leading_zero_bits bytes) ↔ (big_endian bytes * 2 ^ 12 < 256 ^ length bytes)
zero_bits_iff_example =
    zero_bits_iff bytes 12 (omega arith, (omega arith, (omega arith, tt))) (omega arith)

abbrev digest : String → String → List ℕ
digest challenge solution = if str_eq solution "17" then 0 ∷ 3 ∷ [] else 255 ∷ 255 ∷ []

abbrev calls : Calls
calls = record { get_del = fine; set_fresh = fine; fresh = "c2"; now = 5000 }

abbrev headers : Headers
headers = record { challenge = "c1"; solution = "17" }

abbrev issued : Store
issued k = if str_eq "pow:c1" k then some (record { value = "1"; expires = some 120000 }) else none

passes : (check_pow digest 8 calls headers issued).0 ≡ proceed
unfolding check_pow pow_solved pow_key leading_zero_bits count_zero_bits leading_zeros8
    Redis.get_del Redis.read Redis.delete
passes = refl

accepted_once_example :
    (Redis.read issued 5000 (pow_key "c1") ≡ some "1")
    × (8 ≤ leading_zero_bits (digest "c1" "17"))
    × ((check_pow digest 8 calls headers (check_pow digest 8 calls headers issued).1).0 ≢ proceed)
accepted_once_example = accepted_once digest 8 calls calls headers headers issued refl passes refl
