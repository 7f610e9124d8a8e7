-- ===== src/Sessions.antt =====
-- Refresh tokens of api/auth.go: `issueTokens`, `refresh` and `logout`. Signing a JWT is a parameter,
-- from the user and the time at which it expires; the random token of `newRefreshToken` is drawn by
-- the calls of a request.
pub mod Rotation
pub mod Tests
use Prim.Native.String.{◌++◌}
use ticket_booking.Base.{
  ℕ, ◌+◌, ◌*◌, String, Option, none, some, [], ◌∷◌, str_eq, if◌then◌else◌, Fault, fine, refused,
  reply_lost,
}
use ticket_booking.Redis
use ticket_booking.Redis.{Store}

unfoldable pub refresh_key : String → String
refresh_key t = "refresh:" ++ t

pub record Settings : Type 0 where
  pub access_ttl : ℕ
  pub refresh_ttl : ℕ

-- The calls of one request: GETDEL, DEL and SET, the token drawn, the clock.
pub record Calls : Type 0 where
  pub get_del : Fault
  pub del : Fault
  pub set : Fault
  pub drawn : Option String
  pub now : ℕ

pub data Answer : Type 0 where
  -- 200 with the user, the access token and the refresh token
  issued : String → String → String → Answer
  -- a status and a code
  rejected : ℕ → String → Answer

module _ (sign : String → ℕ → Option String) (settings : Settings) (c : Calls) where
  abbrev pub set_token : Fault → String → String → String → Store → Option (String × String) × Store
  set_token fine user access t r =
      (some (access, t), Redis.set (refresh_key t) user settings.refresh_ttl c.now r)
  set_token refused user access t r = (none, r)
  set_token reply_lost user access t r =
      (none, Redis.set (refresh_key t) user settings.refresh_ttl c.now r)

  abbrev pub draw : Option String → String → String → Store → Option (String × String) × Store
  draw none user access r = (none, r)
  draw (some t) user access r = set_token c.set user access t r

  abbrev pub signed : Option String → String → Store → Option (String × String) × Store
  signed none user r = (none, r)
  signed (some access) user r = draw c.drawn user access r

  unfoldable pub issue_tokens : String → Store → Option (String × String) × Store
  issue_tokens user r = signed (sign user (c.now + 1000 * settings.access_ttl)) user r

  abbrev pub answer_with : String → Option (String × String) × Store → Answer × Store
  answer_with user (none, r) = (rejected 500 "token_error", r)
  answer_with user (some (access, t), r) = (issued user access t, r)

  abbrev pub found : Option String → Store → Answer × Store
  found none r = (rejected 401 "invalid_refresh", r)
  found (some user) r = answer_with user (issue_tokens user r)

  -- GETDEL of the token, by its fate.
  abbrev pub redeem : Fault → Option String × Store → Store → Answer × Store
  redeem fine (v, r') r = found v r'
  redeem refused (v, r') r = (rejected 503 "auth_unavailable", r)
  redeem reply_lost (v, r') r = (rejected 503 "auth_unavailable", r')

  -- A body is `none` where `decodeJSON` fails.
  pub refresh : Option String → Store → Answer × Store
  refresh none r = (rejected 400 "refresh_token_required", r)
  refresh (some t) r =
      if str_eq t ""
      then (rejected 400 "refresh_token_required", r)
      else redeem c.get_del (Redis.get_del r c.now (refresh_key t)) r

  abbrev pub revoke : Fault → String → Store → Store
  revoke refused t r = r
  revoke _ t r = Redis.delete (refresh_key t ∷ []) r

  -- The answer is 200 in any case.
  pub logout : Option String → Store → Store
  logout none r = r
  logout (some t) r = if str_eq t "" then r else revoke c.del t r
