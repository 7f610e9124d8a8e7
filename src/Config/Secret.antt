-- ===== src/Config/Secret.antt =====
-- What the check of the secret admits in production.
use Prim.Native.String.{len}
use ticket_booking.Base.{
  String, ◌≤◌, ◌<◌, ◌≡◌, ◌≢◌, ◌↔◌, true, false, List, [], ◌∷◌, any, All, str_eq, eq_iff, arith, inl,
  inr, Bool-cases,
}
use ticket_booking.Config.{weak, refused, valid, weak_secrets, is_weak, validate_jwt_secret}

listed_short :
    (s : String) (ws : List String)
    → All (λ w. len w < 32) ws
    → any (λ w. str_eq s w) ws ≡ true
    → len s < 32
listed_short s [] h e = cc
listed_short s (w ∷ ws) (h, t) e = elim (Bool-cases (str_eq s w)) [
  | inl f ↦ rw ((eq_iff s w).0 f) h
  | inr f ↦ listed_short s ws t (ground (arith, e, f))
]

-- Every weak secret is short.
weak_short : (s : String) → is_weak s ≡ true → len s < 32
weak_short s e =
    listed_short s weak_secrets
      (omega arith, (omega arith, (omega arith, (omega arith, (omega arith, (omega arith, tt)))))) e

empty_short : (s : String) → str_eq s "" ≡ true → len s < 32
empty_short s e = rw ((eq_iff s "").0 e) (omega arith)

-- In production a secret is admitted exactly if it has at least 32 bytes, and no secret is turned
-- down as a weak one, since the check of the length stands before.
pub production_secret_iff :
    (secret app_env : String)
    → app_env ≡ "production"
    → ((validate_jwt_secret secret app_env ≡ valid false) ↔ (32 ≤ len secret))
      × (validate_jwt_secret secret app_env ≢ refused weak)
unfolding validate_jwt_secret
production_secret_iff secret app_env e = rw e (
  (
    λ h. ground (arith, h, weak_short secret, empty_short secret),
    λ h. ground (arith, h, weak_short secret, empty_short secret),
  ),
  λ h. ground (arith, h, weak_short secret, empty_short secret),
)
