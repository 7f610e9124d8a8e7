-- ===== src/Sessions/Tests.antt =====
-- One session: its token is refreshed, or logged out.
use Prim.Native.String.{◌++◌}
use ticket_booking.Base.{
  ℕ, String, ◌≡◌, ◌≢◌, refl, Bool, ap, true, false, Option, none, some, str_eq, if◌then◌else◌, fine,
  refused,
}
use ticket_booking.Redis
use ticket_booking.Redis.{Store}
use ticket_booking.Sessions.{Settings, Calls, refresh_key, issue_tokens, refresh, logout}
use ticket_booking.Sessions.Rotation.{is_issued, refresh_once, logout_revokes}

abbrev sign : String → ℕ → Option String
sign user expires = some ("jwt-" ++ user)

abbrev settings : Settings
settings = record { access_ttl = 900; refresh_ttl = 604800 }

abbrev calls : Calls
calls = record { get_del = fine; del = fine; set = fine; drawn = some "t2"; now = 5000 }

abbrev session : Store
session k =
    if str_eq "refresh:t1" k then some (record { value = "u1"; expires = some 90000 }) else none

abbrev is_t1 : Option String → Bool
is_t1 none = false
is_t1 (some t) = str_eq t "t1"

fresh : calls.drawn ≢ some "t1"
fresh e = let wrong : false ≡ true = ap is_t1 e in cc

refreshes : is_issued (refresh sign settings calls (some "t1") session).0 ≡ true
unfolding refresh issue_tokens refresh_key Redis.get_del Redis.read Redis.delete
refreshes = refl

refresh_once_example :
    ((user : String) × (Redis.read session 5000 (refresh_key "t1") ≡ some user))
    × (is_issued
          (refresh sign settings calls
            (some "t1")
            (refresh sign settings calls (some "t1") session).1).0
        ≡ false)
refresh_once_example = refresh_once sign settings calls calls "t1" session fresh fresh refreshes

logged_out : calls.del ≢ refused
logged_out e = cc

logout_revokes_example :
    is_issued
      (refresh sign settings calls (some "t1") (logout sign settings calls (some "t1") session)).0
    ≡ false
logout_revokes_example = logout_revokes sign settings calls calls "t1" session logged_out fresh
