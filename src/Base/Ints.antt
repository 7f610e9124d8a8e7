-- ===== src/Base/Ints.antt =====
-- Go's `int` as it comes out of a JSON body, and its comparisons with a constant that is not negative.
use Prim.Native.Nat.{ℕ}
use mathlib.Core.Bool.{Bool, true, false}
use ticket_booking.Base.Tests.{ltb}

pub data ℤ : Type 0 where
  pos : ℕ → ℤ
  negsuc : ℕ → ℤ

-- z < n
abbrev pub below : ℤ → ℕ → Bool
below (pos k) n = ltb k n
below (negsuc k) n = true

-- z > n
abbrev pub above : ℤ → ℕ → Bool
above (pos k) n = ltb n k
above (negsuc k) n = false

-- The number that is not negative, where the code has made sure of it.
abbrev pub to_nat : ℤ → ℕ
to_nat (pos k) = k
to_nat (negsuc k) = 0
