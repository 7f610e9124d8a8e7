-- ===== src/Config/Tests.antt =====
-- A long secret in production.
use ticket_booking.Base.{String, ◌≡◌, refl, false}
use ticket_booking.Config.{valid, validate_jwt_secret}

abbrev secret : String
secret = "0123456789abcdef0123456789abcdef"

admitted : validate_jwt_secret secret "production" ≡ valid false
unfolding validate_jwt_secret
admitted = refl
