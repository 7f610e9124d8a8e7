-- ===== src/Accounts/Returns.antt =====
-- Who registered, or was made the administrator at the start, can log in.
use ticket_booking.Base.{
  ℕ, String, ◌≡◌, refl, subst, Bool, true, false, Option, none, some, List, fine, refused,
  reply_lost, Fault, str_eq, if◌then◌else◌, ◌||◌,
}
use ticket_booking.Db.{User}
use ticket_booking.World.{World, Uuids}
use ticket_booking.Pow
use ticket_booking.Sessions
use ticket_booking.Redis.{Store}
use ticket_booking.Accounts.{
  Bcrypt, Credentials, Visit, user_of, upsert_admin, normalize_email, upserted, hashed_admin,
  ensure_admin, login, start_session,
}
use ticket_booking.Accounts.Upsert.{upsert_row}
use ticket_booking.Accounts.Passwords.{login_iff}

-- What the comparison of a hash relies on.
abbrev pub Accepts : Bcrypt → Type 0
Accepts bcrypt =
    (salt : ℕ) (password hash : String)
    → bcrypt.generate salt password ≡ some hash
    → bcrypt.compare hash password ≡ true

module _ (u : Uuids) (bcrypt : Bcrypt) (to_lower : String → String)
    (digest : String → String → List ℕ) (difficulty : ℕ) (sign : String → ℕ → Option String)
    (settings : Sessions.Settings) (accepts : Accepts bcrypt) where
  module _ (c' : Visit) (b' : Credentials) (r : Store) where
    logs_in :
        (w : World) (x : User)
        → user_of
            (normalize_email u bcrypt to_lower digest difficulty sign settings c' b'.email)
            w.db.users
          ≡ some x
        → bcrypt.compare x.password_hash b'.password ≡ true
        → Pow.check_pow digest difficulty c'.gate c'.headers w.redis ≡ (Pow.proceed, r)
        → c'.query ≡ fine
        → c'.body ≡ some b'
        → login u bcrypt to_lower digest difficulty sign settings c' w
          ≡ start_session u bcrypt to_lower digest difficulty sign settings c' 200 x.id x.is_admin
              (record w { redis = r })
    logs_in w x k y g q e =
        (login_iff u bcrypt to_lower digest difficulty sign settings c' b' w r g q e).0 x (k, y)

    -- Where bcrypt accepts the hashes that it makes, the administrator whom `ensureAdmin` makes or
    -- raises, with both settings there and no error, can log in with these settings, or any spelling of
    -- the email that normalizes alike, as an administrator, where the proof of work is accepted and the
    -- lookup goes through.
    pub ensure_admin-login :
        (c : Visit) (admin_email admin_password : String) (w : World)
        → (str_eq
              (normalize_email u bcrypt to_lower digest difficulty sign settings c admin_email)
              ""
            || str_eq admin_password "")
          ≡ false
        → (ensure_admin u bcrypt to_lower digest difficulty sign settings c admin_email
            admin_password w).0
          ≡ false
        → normalize_email u bcrypt to_lower digest difficulty sign settings c' b'.email
          ≡ normalize_email u bcrypt to_lower digest difficulty sign settings c admin_email
        → b'.password ≡ admin_password
        → Pow.check_pow digest difficulty c'.gate c'.headers w.redis ≡ (Pow.proceed, r)
        → c'.query ≡ fine
        → c'.body ≡ some b'
        → let w' =
            (ensure_admin u bcrypt to_lower digest difficulty sign settings c admin_email
              admin_password w).1 in
          (id : ℕ) × (login u bcrypt to_lower digest difficulty sign settings c' w'
            ≡ start_session u bcrypt to_lower digest difficulty sign settings c' 200 id true
                (record w' { redis = r }))
    unfolding ensure_admin
    ensure_admin-login c admin_email admin_password w set fine_one n p g q e' = rw set (
        of_hash (bcrypt.generate c.salt admin_password) refl (
          subst
            (λ (x : Bool).
              (if x
                then (false, w)
                else hashed_admin u bcrypt to_lower digest difficulty sign settings c email
                    (bcrypt.generate c.salt admin_password) w).0
              ≡ false)
            set fine_one))
      where
        email : String
        email = normalize_email u bcrypt to_lower digest difficulty sign settings c admin_email

        Goal : Bool × World → Type 0
        Goal x =
            (id : ℕ) × (login u bcrypt to_lower digest difficulty sign settings c' x.1
              ≡ start_session u bcrypt to_lower digest difficulty sign settings c' 200 id true
                  (record x.1 { redis = r }))

        of_rows :
            (hash : String) (users : List User) (x : User)
            → bcrypt.generate c.salt admin_password ≡ some hash
            → user_of email users ≡ some x
            → x.password_hash ≡ hash
            → x.is_admin ≡ true
            → (id : ℕ) × (login u bcrypt to_lower digest difficulty sign settings c'
                  (record w { db = record w.db { users = users } })
                ≡ start_session u bcrypt to_lower digest difficulty sign settings c' 200 id true
                    (record w { db = record w.db { users = users }; redis = r }))
        of_rows hash users x made there mine adm = (
          x.id,
          subst
              (λ (adm : Bool).
                login u bcrypt to_lower digest difficulty sign settings c'
                  (record w { db = record w.db { users = users } })
                ≡ start_session u bcrypt to_lower digest difficulty sign settings c' 200 x.id adm
                    (record w { db = record w.db { users = users }; redis = r }))
              adm
              (logs_in (record w { db = record w.db { users = users } }) x (rw n there)
                (rw (mine, p) (accepts c.salt admin_password hash made)) g q e'),
        )

        of_store :
            (hash : String) (f : Fault) (o : Option (List User))
            → bcrypt.generate c.salt admin_password ≡ some hash
            → upsert_admin c.fresh email hash w.db.users ≡ o
            → (upserted u bcrypt to_lower digest difficulty sign settings c f o w).0 ≡ false
            → Goal (upserted u bcrypt to_lower digest difficulty sign settings c f o w)
        of_store hash refused o made e no_error = cc
        of_store hash fine none made e no_error = cc
        of_store hash reply_lost none made e no_error = cc
        of_store hash reply_lost (some users) made e no_error = cc
        of_store hash fine (some users) made e no_error =
            let (x, there, mine, adm) = upsert_row c.fresh email hash w.db.users users e in
            of_rows hash users x made there mine adm

        of_hash :
            (o : Option String)
            → bcrypt.generate c.salt admin_password ≡ o
            → (hashed_admin u bcrypt to_lower digest difficulty sign settings c email o w).0 ≡ false
            → Goal (hashed_admin u bcrypt to_lower digest difficulty sign settings c email o w)
        of_hash none made no_error = cc
        of_hash (some hash) made no_error =
            of_store hash c.query (upsert_admin c.fresh email hash w.db.users) made refl no_error
