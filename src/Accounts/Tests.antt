-- ===== src/Accounts/Tests.antt =====
-- One customer who registers and comes back, and the administrator of the first start.
use Prim.Native.String.{◌++◌}
use ticket_booking.Base.{
  ℕ, String, ◌≡◌, refl, true, Option, none, some, List, [], ◌∷◌, ◌↔◌, str_eq, trim_space, trim_left,
  trim_right, if◌then◌else◌, fine,
}
use ticket_booking.Db.{User}
use ticket_booking.World.{World}
use ticket_booking.Pow
use ticket_booking.Sessions
use ticket_booking.Accounts.{
  Bcrypt, Credentials, Visit, lets, normalize_email, ensure_admin, register, admin_auth,
}
use ticket_booking.Accounts.Registration.{Registered, register_effect}
use ticket_booking.Accounts.Emails.{Emails, accounts_differ}
use ticket_booking.Accounts.Access.{IsAdministrator, admin_auth_iff}
use ticket_booking.Fixture.{uuids, world}

abbrev bcrypt : Bcrypt
bcrypt = record { generate = λ salt p. some ("h:" ++ p); compare = λ h p. str_eq h ("h:" ++ p) }

abbrev to_lower : String → String
to_lower s = if str_eq s "Ann@Example.com" then "ann@example.com" else s

abbrev digest : String → String → List ℕ
digest c s = []

abbrev sign : String → ℕ → Option String
sign user expires = some ("jwt-" ++ user)

abbrev settings : Sessions.Settings
settings = record { access_ttl = 900; refresh_ttl = 604800 }

abbrev visit : String → String → Visit
visit email password = record {
  headers = record { challenge = ""; solution = "" };
  body = some (record { email = email; password = password });
  gate = record { get_del = fine; set_fresh = fine; fresh = "c1"; now = 1000 };
  tokens = record { get_del = fine; del = fine; set = fine; drawn = some "t1"; now = 1000 };
  query = fine;
  salt = 5;
  fresh = 8;
}

abbrev joins : Visit
joins = visit " Ann@Example.com" "correct horse"

abbrev returns : Visit
returns = visit "ann@example.com" "correct horse"

abbrev joined : World
joined = (register uuids bcrypt to_lower digest 0 sign settings joins world).1

register_effect_example :
    Registered uuids bcrypt to_lower digest 0 sign settings joins world
      (register uuids bcrypt to_lower digest 0 sign settings joins world)
register_effect_example = register_effect uuids bcrypt to_lower digest 0 sign settings joins world

ann_normal : Emails uuids bcrypt to_lower digest 0 sign settings joins world.db.users
unfolding normalize_email trim_space trim_left trim_right
ann_normal = ((refl, tt), ((refl, ("ann@example.org", refl)), tt))

accounts_differ_example :
    Emails uuids bcrypt to_lower digest 0 sign settings joins joined.db.users
    × Emails uuids bcrypt to_lower digest 0 sign settings joins
        (ensure_admin uuids bcrypt to_lower digest 0 sign settings joins " Root@Example.com"
          "correct horse" world).1.db.users
accounts_differ_example =
    accounts_differ uuids bcrypt to_lower digest 0 sign settings joins " Root@Example.com"
      "correct horse" world ann_normal

abbrev wrong : Visit
wrong = visit "ann@example.com" "battery staple"

abbrev tried : Credentials
tried = record { email = "ann@example.com"; password = "battery staple" }

abbrev verify : String → Option String
verify t = if str_eq t "jwt-boss" then some "00000000-0000-0000-0000-000000000007" else none

abbrev boss : User
boss = record { id = 7; email = "boss@example.com"; password_hash = "h:x"; is_admin = true }

admin_auth_iff_example :
    (admin_auth verify uuids fine (boss ∷ []) "Bearer jwt-boss"
      ≡ lets "00000000-0000-0000-0000-000000000007")
    ↔ IsAdministrator verify uuids fine
        (boss ∷ [])
        "Bearer jwt-boss"
        "00000000-0000-0000-0000-000000000007"
admin_auth_iff_example =
    admin_auth_iff verify uuids fine (boss ∷ []) "Bearer jwt-boss"
      "00000000-0000-0000-0000-000000000007"
