-- ===== src/Base/Text.antt =====
-- Texts: `strings.TrimSpace` of Go, `chr` and the printing of an integer of Postgres.
use Prim.Native.Nat.{ℕ, zero, suc, ◌+◌, ◌-◌, ◌*◌, ◌/◌, ◌%◌, ◌≤◌, compare, Ordering}
use Prim.Native.Char.{Char, char, code, IsScalar}
use Prim.Native.String.{String}
use mathlib.Core.Path.{◌≡◌, ap, ◌∙◌}
use mathlib.Core.Logic.{inl, inr}
use mathlib.Core.Bool.{Bool, ◌&&◌, ◌||◌}
use mathlib.Core.List.{List, [], ◌∷◌}
use native.Mathlib.Omega.{arith}
use ticket_booking.Base.Tests.{ltb, leb, ◌==◌, str_eq, Bool-cases, if◌then◌else◌}
use ticket_booking.Base.Uuid.{codes}

-- `unicode.IsSpace`
abbrev pub is_space : ℕ → Bool
is_space c =
    leb 9 c && leb c 13
    || c == 32
    || c == 133
    || c == 160
    || c == 5760
    || leb 8192 c && leb c 8202
    || c == 8232
    || c == 8233
    || c == 8239
    || c == 8287
    || c == 12288

unfoldable pub trim_left : String → String
trim_left String.[] = String.[]
trim_left (String.◌∷◌ c s) =
    let rest = trim_left s in if is_space (code c) then rest else String.◌∷◌ c s

unfoldable pub trim_right : String → String
trim_right String.[] = String.[]
trim_right (String.◌∷◌ c s) =
    let rest = trim_right s in
    if is_space (code c) && str_eq rest "" then String.[] else String.◌∷◌ c rest

unfoldable pub trim_space : String → String
trim_space s = trim_right (trim_left s)

ascii : (n : ℕ) → compare (n % 128) 55296 ≡ Ordering.lt
ascii n = ground arith

pub ascii-IsScalar : (n : ℕ) → IsScalar (n % 128)
ascii-IsScalar n = rw (ascii n) tt

-- chr(n), of an ASCII code
abbrev pub chr : ℕ → Char
chr n = char (n % 128) (ascii-IsScalar n)

abbrev pub digit : ℕ → Char
digit d = chr (b'0' + d)

-- The decimal digits of a number, before a text.
unfoldable pub decimal_onto : ℕ → ℕ → String → String
decimal_onto zero n s = String.◌∷◌ (digit n) s
decimal_onto (suc fuel) n s =
    let longer = decimal_onto fuel (n / 10) (String.◌∷◌ (digit (n % 10)) s) in
    if ltb n 10 then String.◌∷◌ (digit n) s else longer

unfoldable pub decimal : ℕ → String
decimal n = decimal_onto n n String.[]

-- The number that digits spell, after a number that others spell.
abbrev pub spelled : ℕ → List ℕ → ℕ
spelled n [] = n
spelled n (c ∷ cs) = spelled (n * 10 + (c - b'0')) cs

pub spelled-decimal_onto :
    (fuel n : ℕ) (s : String)
    → n ≤ fuel
    → spelled 0 (codes (decimal_onto fuel n s)) ≡ spelled n (codes s)
unfolding decimal_onto
spelled-decimal_onto zero n s h = ap (λ k. spelled k (codes s)) (omega (arith, h))
spelled-decimal_onto (suc fuel) n s h = elim (Bool-cases (ltb n 10)) [
  | inl q ↦ rw q (ap (λ k. spelled k (codes s)) (ground (arith, q)))
  | inr q ↦ rw q (
      spelled-decimal_onto fuel (n / 10) (String.◌∷◌ (digit (n % 10)) s) (ground (arith, h, q))
      ∙ ap (λ k. spelled k (codes s)) (omega arith))
]
