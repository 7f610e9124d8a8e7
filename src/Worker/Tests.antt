-- ===== src/Worker/Tests.antt =====
-- A start of the service whose first attempt fails, and a worker whose first tick fails.
use Prim.Native.String.{◌++◌}
use ticket_booking.Base.{
  ℕ, String, ◌≡◌, refl, Option, some, List, [], ◌∷◌, ◌++◌ as append, map, str_eq, trim_space,
  trim_left, trim_right, if◌then◌else◌, Fault, fine, refused, arith, ◌⊎◌, Bool, ◌==◌,
}
use ticket_booking.World.{World, Env}
use ticket_booking.Pow
use ticket_booking.Sessions
use ticket_booking.Accounts.{Bcrypt, Visit, normalize_email, upsert_admin, ensure_admin}
use ticket_booking.Worker.{tick, admin_given_up, expiry_worker, admin_loop, bootstrap_admin}
use ticket_booking.Worker.Bootstrap.{met, AllFail, Lands, bootstrap_ends}
use ticket_booking.Worker.Administrator.{try_admin}
use ticket_booking.Worker.Expiry.{Released, worker_releases}
use ticket_booking.Fixture.{uuids, late, world, db-IsConsistent}

abbrev down : Env
down = record { fault = λ _. refused; clock = λ _. 5000; fresh = 300 }

worker_releases_example :
    Released 10000
      (expiry_worker (map tick (down ∷ [])) world).1.db
      (expiry_worker (map tick (append (down ∷ []) (late ∷ []))) world).1.db
worker_releases_example = worker_releases (down ∷ []) late world db-IsConsistent refl

abbrev bcrypt : Bcrypt
bcrypt = record { generate = λ salt p. some ("h:" ++ p); compare = λ h p. str_eq h ("h:" ++ p) }

abbrev to_lower : String → String
to_lower s = if str_eq s "Ann@Example.com" then "ann@example.com" else s

abbrev digest : String → String → List ℕ
digest c s = []

abbrev sign : String → ℕ → Option String
sign user expires = some ("jwt-" ++ user)

abbrev settings : Sessions.Settings
settings = record { access_ttl = 900; refresh_ttl = 604800 }

abbrev visit : Fault → Visit
visit query = record {
  headers = record { challenge = ""; solution = "" };
  body = some (record { email = "boss@example.com"; password = "correct horse" });
  gate = record { get_del = fine; set_fresh = fine; fresh = "c1"; now = 1000 };
  tokens = record { get_del = fine; del = fine; set = fine; drawn = some "t1"; now = 1000 };
  query = query;
  salt = 5;
  fresh = 8;
}

-- Postgres is not up yet at the first attempt.
abbrev visits : ℕ → Visit
visits k = visit (if k == 1 then refused else fine)

abbrev attempt : ℕ → World → Bool × World
attempt =
    try_admin uuids bcrypt to_lower digest 0 sign settings visits "boss@example.com" "correct horse"

abbrev sleep : ℕ → World → World
sleep k w = w

bootstrap_ends_example :
    Lands attempt sleep 30 1 world (bootstrap_admin attempt sleep world)
    ⊎ (AllFail attempt sleep 30 1 world
        × (bootstrap_admin attempt sleep world
            ≡ (admin_given_up ∷ [], met attempt sleep 30 1 world)))
bootstrap_ends_example = bootstrap_ends attempt sleep world

landed : Lands attempt sleep 30 1 world (bootstrap_admin attempt sleep world)
unfolding bootstrap_admin admin_loop ensure_admin normalize_email trim_space trim_left trim_right
    upsert_admin
landed = record {
  n = 1;
  number = 2;
  counted = refl;
  in_time = omega arith;
  before = (refl, tt);
  lands = refl;
  result = refl;
}
