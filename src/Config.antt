-- ===== src/Config.antt =====
-- `ValidateJWTSecret` of api/internal/config/config.go. `len` counts bytes, as Go's does.
pub mod Secret
pub mod Load
pub mod Tests
use Prim.Native.String.{len}
use ticket_booking.Base.{
  ℕ, String, Bool, true, false, ◌||◌, List, [], ◌∷◌, any, str_eq, ltb, if◌then◌else◌,
}

pub data Problem : Type 0 where
  required weak : Problem
  too_short : ℕ → Problem

-- The error, or none with whether the warning is logged.
pub data Validated : Type 0 where
  refused : Problem → Validated
  valid : Bool → Validated

abbrev pub weak_secrets : List String
weak_secrets =
    "dev-secret" ∷ "dev-secret-change-in-prod" ∷ "changeme" ∷ "secret" ∷ "password" ∷ "test-secret"
    ∷ []

abbrev pub is_weak : String → Bool
is_weak secret = any (λ w. str_eq secret w) weak_secrets

unfoldable pub validate_jwt_secret : String → String → Validated
validate_jwt_secret secret app_env =
    if str_eq secret ""
    then refused required
    else if str_eq app_env "production"
    then if ltb (len secret) 32
      then refused (too_short (len secret))
      else if is_weak secret
      then refused weak
      else valid false
    else valid (is_weak secret || ltb (len secret) 32)
