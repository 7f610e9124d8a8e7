-- ===== src/Accounts/Kept.antt =====
-- What the accounts' handlers leave alone: every table but the users'.
use ticket_booking.Base.{
  ℕ, String, ◌≡◌, refl, Bool, false, ◌||◌, str_eq, if_cases, Fault, fine, refused, reply_lost,
  Option, none, some, List, inl, inr, Exit, next, leave, Ends, EndsBy, Ends-bind, Ends-pure,
  Ends-leave, Ends-imp, Ends-guard,
}
use ticket_booking.Db.{Db, User}
use ticket_booking.World.{World, Uuids, or_answer}
use ticket_booking.World.Outcomes.{Ends-found}
use ticket_booking.Redis.{Store}
use ticket_booking.Sessions
use ticket_booking.Accounts.{
  Bcrypt, Visit, Answer, denied, user_of, normalize_email, issued, then_session, verified, register,
  login, ensure_admin, upserted, hashed_admin,
}
use ticket_booking.Accounts.Registration.{gate-Ends, Registered, register_effect}

-- The same tables but for the users'.
abbrev pub OnlyUsers : Db → Db → Type 0
OnlyUsers db db' = (users : List User) × (db' ≡ record db { users = users })

module _ (u : Uuids) (bcrypt : Bcrypt) (to_lower : String → String)
    (digest : String → String → List ℕ) (difficulty : ℕ) (sign : String → ℕ → Option String)
    (settings : Sessions.Settings) (c : Visit) where
  abbrev Same : {A : Type 0} → World → A → World → Type 0
  Same w a w' = w'.db ≡ w.db

  looked_up :
      (w w₁ : World)
      → w₁.db ≡ w.db
      → (o : Option User)
      → Ends (Same w) (Same w) (or_answer o (denied 401 "invalid_credentials") w₁)
  looked_up w w₁ s none = Ends-leave s
  looked_up w w₁ s (some y) = Ends-pure s

  verified-Ends :
      (w : World)
      → Ends (Same w) (Same w) (verified u bcrypt to_lower digest difficulty sign settings c w)
  unfolding verified
  verified-Ends w =
      Ends-bind _ _ _
        (Ends-imp _ (λ a w' (_, s). s) (λ _ w' s. s)
          (gate-Ends u bcrypt to_lower digest difficulty sign settings c w))
        λ _ w₁ s₁.
          Ends-found c.body _ _ w₁ (λ _. s₁)
            λ b q.
              Ends-guard _ _ _ w₁ (λ _. s₁)
                λ _.
                  Ends-bind _ _ _
                    (looked_up w w₁ s₁ (
                      user_of
                        (normalize_email u bcrypt to_lower digest difficulty sign settings c
                          b.email)
                        w₁.db.users))
                    λ y w₂ s₂. Ends-guard _ _ _ w₂ (λ _. s₂) λ _. Ends-pure s₂

  then_session-db :
      (status : ℕ) (w : World) (r : Exit Answer (ℕ × Bool) × World)
      → EndsBy (Same w) (Same w) r
      → (then_session u bcrypt to_lower digest difficulty sign settings c status r).1.db ≡ w.db
  then_session-db status w (leave a, w') s = s
  then_session-db status w (next (id, adm), w') s =
      go (Sessions.issue_tokens sign settings c.tokens (u.text id) w'.redis)
    where
      go :
          (t : Option (String × String) × Store)
          → (issued u bcrypt to_lower digest difficulty sign settings c status id adm t w').1.db
            ≡ w.db
      go (none, r) = s
      go (some (access, refresh), r) = s

  pub db-login :
      (w : World) → (login u bcrypt to_lower digest difficulty sign settings c w).1.db ≡ w.db
  unfolding login
  db-login w =
      then_session-db 200 w (verified u bcrypt to_lower digest difficulty sign settings c w)
        (verified-Ends w).holds

  pub register-OnlyUsers :
      (w : World)
      → OnlyUsers w.db (register u bcrypt to_lower digest difficulty sign settings c w).1.db
  register-OnlyUsers w =
      go (register u bcrypt to_lower digest difficulty sign settings c w)
        (register_effect u bcrypt to_lower digest difficulty sign settings c w)
    where
      go :
          (r : Answer × World)
          → Registered u bcrypt to_lower digest difficulty sign settings c w r
          → OnlyUsers w.db r.1.db
      go (a, w') (inl (n, same)) = (w.db.users, same)
      go (a, w') (inr (m, t)) = (_, m.effect)

  upserted-OnlyUsers :
      (f : Fault) (o : Option (List User)) (w : World)
      → OnlyUsers w.db (upserted u bcrypt to_lower digest difficulty sign settings c f o w).1.db
  upserted-OnlyUsers refused o w = (w.db.users, refl)
  upserted-OnlyUsers fine none w = (w.db.users, refl)
  upserted-OnlyUsers reply_lost none w = (w.db.users, refl)
  upserted-OnlyUsers fine (some users) w = (users, refl)
  upserted-OnlyUsers reply_lost (some users) w = (users, refl)

  hashed_admin-OnlyUsers :
      (email : String) (o : Option String) (w : World)
      → OnlyUsers w.db
          (hashed_admin u bcrypt to_lower digest difficulty sign settings c email o w).1.db
  hashed_admin-OnlyUsers email none w = (w.db.users, refl)
  hashed_admin-OnlyUsers email (some hash) w = upserted-OnlyUsers c.query _ w

  pub ensure_admin-OnlyUsers :
      (email password : String) (w : World)
      → OnlyUsers w.db
          (ensure_admin u bcrypt to_lower digest difficulty sign settings c email password w).1.db
  unfolding ensure_admin
  ensure_admin-OnlyUsers email password w =
      let email' = normalize_email u bcrypt to_lower digest difficulty sign settings c email in
      let hash = bcrypt.generate c.salt password in
      if_cases (λ (a : Bool × World). OnlyUsers w.db a.1.db)
        (str_eq email' "" || str_eq password "") (false, w)
        (hashed_admin u bcrypt to_lower digest difficulty sign settings c email' hash w)
        (λ _. (w.db.users, refl)) (λ _. hashed_admin-OnlyUsers email' hash w)
