-- ===== src/Config/Load/Times.antt =====
-- How the time to live of a hold is read, and what that means for `holdScript`.
use mathlib.Core.Bool.{not}
use ticket_booking.Base.{
  ℕ, ◌&&◌, ◌||◌, if◌then◌else◌, String, Bool, true, false, List, [], ◌∷◌, ◌==◌, str_eq, all,
}
use ticket_booking.Config.Load.{is_digit}

is_empty : String → Bool
is_empty String.[] = true
is_empty (String.◌∷◌ c s) = false

abbrev pub is_empty_list : List ℕ → Bool
is_empty_list [] = true
is_empty_list (c ∷ cs) = false

-- A number in decimal: digits, after a sign or without.
abbrev pub is_number : List ℕ → Bool
is_number [] = false
is_number (c ∷ cs) =
    if c == b'-' || c == b'+'
    then not (is_empty_list cs) && all is_digit cs
    else all is_digit (c ∷ cs)

-- The same environment with the default for the time to live.
abbrev pub repaired : (String → String) → String → String
repaired getenv key = if str_eq key "HOLD_TTL_SECONDS" then "600" else getenv key
