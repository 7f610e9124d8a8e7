-- ===== src/Config/Load/Tests.antt =====
-- A time to live with a unit, as Go's durations are written, is no number.
use ticket_booking.Base.{◌≡◌, refl, String, str_eq, if◌then◌else◌, pos}
use ticket_booking.Config.Load.{load, atoi, hold_seconds}

abbrev getenv : String → String
getenv key = if str_eq key "HOLD_TTL_SECONDS" then "10m" else ""

unreadable : atoi "10m" ≡ pos 0
unfolding atoi
unreadable = refl

default_ttl : hold_seconds (load (λ key. "")).0 ≡ 600
unfolding load atoi
default_ttl = refl
