-- ===== src/Worker/Administrator.antt =====
-- The administrator after the start of the service.
use ticket_booking.Base.{ℕ, String, Bool, Option, List}
use ticket_booking.Pow
use ticket_booking.World.{World, Uuids}
use ticket_booking.Sessions
use ticket_booking.Accounts.{Bcrypt, Visit, ensure_admin}

module _ (u : Uuids) (bcrypt : Bcrypt) (to_lower : String → String)
    (digest : String → String → List ℕ) (difficulty : ℕ) (sign : String → ℕ → Option String)
    (settings : Sessions.Settings) (visit : ℕ → Visit) (admin_email admin_password : String) where
  -- The call of `ensureAdmin` in attempt k.
  abbrev pub try_admin : ℕ → World → Bool × World
  try_admin k w =
      ensure_admin u bcrypt to_lower digest difficulty sign settings (visit k) admin_email
        admin_password w
