-- ===== src/Accounts.antt =====
-- Accounts: `register` and `login` of api/auth.go, `auth` of api/handlers.go, `adminAuth` and
-- `ensureAdmin` of api/admin.go. bcrypt, the parsing of a JWT and Unicode's lower case are parameters.
pub mod Passwords
pub mod Registration
pub mod Emails
pub mod Upsert
pub mod Returns
pub mod Access
pub mod Kept
pub mod Tests
use Prim.Native.Char.{code}
use Prim.Native.String.{len}
use ticket_booking.Base.{
  ℕ, String, Bool, true, false, ◌||◌, Option, none, some, List, [], ◌∷◌, ◌==◌, str_eq,
  if◌then◌else◌, any, first, update, trim_space, codes, get_or, Fault, fine, refused, reply_lost,
  not, ltb, Exec, Exit, next, leave, pure, ◌>>=◌, ◌>>◌, refuse_if,
}
use ticket_booking.Db.{User}
use ticket_booking.World.{World, Uuids, failed, or_answer}
use ticket_booking.Redis.{Store}
use ticket_booking.Pow
use ticket_booking.Sessions

-- golang.org/x/crypto/bcrypt: the hash of a password under a salt, or its error, and the comparison
-- of a hash with a password.
pub record Bcrypt : Type 0 where
  pub generate : ℕ → String → Option String
  pub compare : String → String → Bool

pub record Credentials : Type 0 where
  pub email : String
  pub password : String

-- What one request brings, and what its calls meet.
pub record Visit : Type 0 where
  pub headers : Pow.Headers
  pub body : Option Credentials
  pub gate : Pow.Calls
  pub tokens : Sessions.Calls
  pub query : Fault
  pub salt : ℕ
  pub fresh : ℕ

pub data Answer : Type 0 where
  -- `writeTokens`: status, user, access token, refresh token, is_admin
  tokens_for : ℕ → ℕ → String → String → Bool → Answer
  denied : ℕ → String → Answer

abbrev pub min_password_len : ℕ
min_password_len = 8

-- strings.Contains(s, "@")
abbrev pub has_at : String → Bool
has_at s = any (λ c. c == b'@') (codes s)

abbrev strip : String → String → Option String
strip String.[] s = some s
strip (String.◌∷◌ c p) String.[] = none
strip (String.◌∷◌ c p) (String.◌∷◌ d s) =
    let rest = strip p s in if code c == code d then rest else none

-- strings.TrimPrefix(s, p)
abbrev pub trim_prefix : String → String → String
trim_prefix s p = get_or s (strip p s)

abbrev pub has_email : String → User → Bool
has_email email x = str_eq x.email email

-- SELECT … FROM users WHERE email = $1
abbrev pub user_of : String → List User → Option User
user_of email = first (has_email email)

-- INSERT INTO users (email, password_hash) VALUES ($1, $2); `none` for a breach of a unique key.
unfoldable pub insert_user : ℕ → String → String → List User → Option (List User)
insert_user fresh email hash users =
    if any (λ x. has_email email x || x.id == fresh) users
    then none
    else some (record { id = fresh; email = email; password_hash = hash; is_admin = false } ∷ users)

-- INSERT … VALUES ($1, $2, true) ON CONFLICT (email) DO UPDATE SET is_admin = true,
-- password_hash = EXCLUDED.password_hash; `none` for a breach of the primary key.
unfoldable pub upsert_admin : ℕ → String → String → List User → Option (List User)
upsert_admin fresh email hash users =
    if any (has_email email) users
    then some
        (update (has_email email) (λ x. record x { is_admin = true; password_hash = hash }) users)
    else if any (λ x. x.id == fresh) users
    then none
    else some (record { id = fresh; email = email; password_hash = hash; is_admin = true } ∷ users)

-- SELECT … FROM users WHERE id = $1
abbrev pub user_with : ℕ → List User → Option User
user_with id = first (λ x. x.id == id)

-- A request that a guard lets through, with the user it stands for, or its answer.
pub data Guarded : Type 0 where
  lets : String → Guarded
  turns_away : ℕ → String → Guarded

-- `verify` is `jwt.Parse` under the service's secret, with the subject of a valid token.
module _ (verify : String → Option String) where
  abbrev pub subject : Option String → Guarded
  subject none = turns_away 401 "invalid_token"
  subject (some sub) = lets sub

  -- `auth`, from the Authorization header
  unfoldable pub auth : String → Guarded
  auth header =
      let raw = trim_prefix header "Bearer " in
      if str_eq raw "" then turns_away 401 "missing_token" else subject (verify raw)

  abbrev pub admin_row : Option User → String → Guarded
  admin_row none sub = turns_away 403 "admin_only"
  admin_row (some x) sub = if x.is_admin then lets sub else turns_away 403 "admin_only"

  abbrev pub only_admin : Uuids → Fault → List User → Guarded → Guarded
  only_admin u query users (turns_away status code) = turns_away status code
  only_admin u query users (lets sub) =
      admin_row (if failed query then none else user_with (u.value sub) users) sub

  -- `adminAuth`
  unfoldable pub admin_auth : Uuids → Fault → List User → String → Guarded
  unfolding auth
  admin_auth u query users header = only_admin u query users (auth header)

-- The key of a refresh token holds the user's id as a text.
module _ (u : Uuids) (bcrypt : Bcrypt) (to_lower : String → String)
    (digest : String → String → List ℕ) (difficulty : ℕ) (sign : String → ℕ → Option String)
    (settings : Sessions.Settings) (c : Visit) where
  unfoldable pub normalize_email : String → String
  normalize_email s = to_lower (trim_space s)

  abbrev pub passed : Pow.Gate × Store → Exec World Answer (Unit {0})
  passed (Pow.proceed, r) w = (next tt, record w { redis = r })
  passed (Pow.stopped code, r) w = (leave (denied 400 code), record w { redis = r })

  -- `if !a.checkPoW(w, r) { return }`
  abbrev pub gate : Exec World Answer (Unit {0})
  gate w = passed (Pow.check_pow digest difficulty c.gate c.headers w.redis) w

  abbrev pub issued : ℕ → ℕ → Bool → Option (String × String) × Store → World → Answer × World
  issued status id is_admin (none, r) w = (denied 500 "token_error", record w { redis = r })
  issued status id is_admin (some (access, refresh), r) w =
      (tokens_for status id access refresh is_admin, record w { redis = r })

  abbrev pub start_session : ℕ → ℕ → Bool → World → Answer × World
  start_session status id is_admin w =
      issued status id is_admin (Sessions.issue_tokens sign settings c.tokens (u.text id) w.redis) w

  -- The INSERT of the new user, by its fate.
  abbrev pub stored : Fault → Option (List User) → Exec World Answer (Unit {0})
  stored refused o w = (leave (denied 500 "db_error"), w)
  stored fine none w = (leave (denied 409 "email_taken"), w)
  stored fine (some users) w = (next tt, record w { db = record w.db { users = users } })
  stored reply_lost none w = (leave (denied 500 "db_error"), w)
  stored reply_lost (some users) w =
      (leave (denied 500 "db_error"), record w { db = record w.db { users = users } })

  abbrev pub add_user : String → String → Exec World Answer (Unit {0})
  add_user email hash w = stored c.query (insert_user c.fresh email hash w.db.users) w

  unfoldable pub check_registration : Exec World Answer (String × String)
  check_registration = do
    gate
    b ← or_answer c.body (denied 400 "bad_request")
    let email = normalize_email b.email
    refuse_if (str_eq email "" || not (has_at email)) (denied 400 "invalid_email")
    refuse_if (ltb (len b.password) min_password_len) (denied 400 "password_too_short")
    hash ← or_answer (bcrypt.generate c.salt b.password) (denied 500 "hash_error")
    pure (email, hash)

  abbrev pub registered : Exec World Answer (Unit {0})
  registered = do new ← check_registration; add_user new.0 new.1

  abbrev pub then_session : ℕ → Exit Answer (ℕ × Bool) × World → Answer × World
  then_session status (leave a, w) = (a, w)
  then_session status (next (id, is_admin), w) = start_session status id is_admin w

  unfoldable pub register : World → Answer × World
  register w = then_session 201 ((registered >>= λ _. pure (c.fresh, false)) w)

  -- The user of a login; an unknown email and a wrong password are answered alike.
  unfoldable pub verified : Exec World Answer (ℕ × Bool)
  verified = do
    gate
    b ← or_answer c.body (denied 400 "bad_request")
    refuse_if (failed c.query) (denied 500 "db_error")
    x ← λ w.
        or_answer (user_of (normalize_email b.email) w.db.users) (denied 401 "invalid_credentials")
          w
    refuse_if (not (bcrypt.compare x.password_hash b.password)) (denied 401 "invalid_credentials")
    pure (x.id, x.is_admin)

  unfoldable pub login : World → Answer × World
  login w = then_session 200 (verified w)

  -- Whether there is an error.
  abbrev pub upserted : Fault → Option (List User) → World → Bool × World
  upserted refused o w = (true, w)
  upserted fine none w = (true, w)
  upserted reply_lost none w = (true, w)
  upserted fine (some users) w = (false, record w { db = record w.db { users = users } })
  upserted reply_lost (some users) w = (true, record w { db = record w.db { users = users } })

  abbrev pub hashed_admin : String → Option String → World → Bool × World
  hashed_admin email none w = (true, w)
  hashed_admin email (some hash) w = upserted c.query (upsert_admin c.fresh email hash w.db.users) w

  -- `ensureAdmin`, with the two settings of the environment.
  unfoldable pub ensure_admin : String → String → World → Bool × World
  ensure_admin admin_email admin_password w =
      let email = normalize_email admin_email in
      if str_eq email "" || str_eq admin_password ""
      then (false, w)
      else hashed_admin email (bcrypt.generate c.salt admin_password) w
