-- ===== src/Accounts/Emails.antt =====
-- The emails of the accounts: the unique index on users(email), and the form that `normalizeEmail` gives.
use ticket_booking.Base.{
  ℕ, String, ◌≡◌, refl, Bool, true, false, ◌||◌, Option, none, some, List, [], ◌∷◌, arith, any,
  update, any-update, All, Bool-cases, inl, inr, ◌==◌, str_eq, unless_lem, some_lem, Fault, fine,
  refused, reply_lost, if◌then◌else◌,
}
use ticket_booking.Db.{User}
use ticket_booking.World.{World, Uuids}
use ticket_booking.Sessions
use ticket_booking.Accounts.{
  Bcrypt, Visit, Answer, has_email, upsert_admin, normalize_email, upserted, hashed_admin,
  ensure_admin, register,
}
use ticket_booking.Accounts.Registration.{Registered, register_effect}

-- No two accounts have one email.
abbrev pub EmailsDiffer : List User → Type 0
EmailsDiffer [] = Unit
EmailsDiffer (x ∷ xs) = (any (has_email x.email) xs ≡ false) × EmailsDiffer xs

no_email :
    (email : String) (id : ℕ) (xs : List User)
    → any (λ x. has_email email x || x.id == id) xs ≡ false
    → any (has_email email) xs ≡ false
no_email email id [] h = refl
no_email email id (x ∷ xs) h = ground (arith, no_email email id xs)

All-update :
    (P : User → Type 0) (p : User → Bool) (f : User → User)
    → ((x : User) → P x → P (f x))
    → (xs : List User) → All P xs
    → All P (update p f xs)
All-update P p f e [] h = tt
All-update P p f e (x ∷ xs) (h, t) = elim (Bool-cases (p x)) [
  | inl q ↦ rw q (e x h, All-update P p f e xs t)
  | inr q ↦ rw q (h, All-update P p f e xs t)
]

EmailsDiffer-update :
    (p : User → Bool) (f : User → User)
    → ((x : User) → (f x).email ≡ x.email)
    → (xs : List User) → EmailsDiffer xs
    → EmailsDiffer (update p f xs)
EmailsDiffer-update p f e [] d = tt
EmailsDiffer-update p f e (x ∷ xs) (h, d) = (
  ground (arith, e x, any-update p (has_email x.email) f (λ y. ground (arith, e y)) xs, h),
  EmailsDiffer-update p f e xs d,
)

module _ (P : User → Type 0) (fresh : ℕ) (email hash : String)
    (e : (x : User) → P x → P (record x { is_admin = true; password_hash = hash }))
    (new : P (record { id = fresh; email = email; password_hash = hash; is_admin = true })) where
  abbrev promoted : List User → List User
  promoted users =
      update (has_email email) (λ x. record x { is_admin = true; password_hash = hash }) users

  upsert_admin-Emails :
      (users users' : List User)
      → EmailsDiffer users × All P users
      → upsert_admin fresh email hash users ≡ some users'
      → EmailsDiffer users' × All P users'
  unfolding upsert_admin
  upsert_admin-Emails users users' (d, n) h = go (any (has_email email) users) refl h
    where
      go :
          (b : Bool)
          → any (has_email email) users ≡ b
          → (if b
              then some (promoted users)
              else if any (λ x. x.id == fresh) users
              then none
              else some (
                  record { id = fresh; email = email; password_hash = hash; is_admin = true }
                  ∷ users))
            ≡ some users'
          → EmailsDiffer users' × All P users'
      go true q h = rw (some_lem (some (promoted users)) users' (promoted users) h refl) (
        EmailsDiffer-update (has_email email) _ (λ _. refl) users d,
        All-update P (has_email email) _ e users n,
      )
      go false q h = rw ((unless_lem _ _ users' h).1) ((q, d), (new, n))

module _ (u : Uuids) (bcrypt : Bcrypt) (to_lower : String → String)
    (digest : String → String → List ℕ) (difficulty : ℕ) (sign : String → ℕ → Option String)
    (settings : Sessions.Settings) (c : Visit) where
  -- It is not empty, and `normalizeEmail` made it.
  abbrev pub IsNormal : User → Type 0
  IsNormal x =
      (str_eq x.email "" ≡ false)
      × ((raw : String) × (x.email
            ≡ normalize_email u bcrypt to_lower digest difficulty sign settings c raw))

  abbrev pub Emails : List User → Type 0
  Emails users = EmailsDiffer users × All IsNormal users

  register-Emails :
      (w : World)
      → Emails w.db.users
      → Emails (register u bcrypt to_lower digest difficulty sign settings c w).1.db.users
  register-Emails w d =
      go (register u bcrypt to_lower digest difficulty sign settings c w)
        (register_effect u bcrypt to_lower digest difficulty sign settings c w)
    where
      go :
          (r : Answer × World)
          → Registered u bcrypt to_lower digest difficulty sign settings c w r
          → Emails r.1.db.users
      go (a, w') (inl (n, same)) = rw same d
      go (a, w') (inr (h, x)) = rw h.effect (
        (no_email h.email c.fresh w.db.users h.untaken, d.0),
        ((ground (arith, h.hashed.is_valid), (h.hashed.body.email, h.hashed.is_email)), d.1),
      )

  upserted-Emails :
      (f : Fault) (o : Option (List User)) (w : World)
      → Emails w.db.users
      → ((users : List User) → o ≡ some users → Emails users)
      → Emails (upserted u bcrypt to_lower digest difficulty sign settings c f o w).1.db.users
  upserted-Emails refused o w d h = d
  upserted-Emails fine none w d h = d
  upserted-Emails reply_lost none w d h = d
  upserted-Emails fine (some users) w d h = h users refl
  upserted-Emails reply_lost (some users) w d h = h users refl

  abbrev normal : String → String
  normal s = normalize_email u bcrypt to_lower digest difficulty sign settings c s

  hashed_admin-Emails :
      (raw : String) (o : Option String) (w : World)
      → str_eq (normal raw) "" ≡ false
      → Emails w.db.users
      → Emails
          (hashed_admin u bcrypt to_lower digest difficulty sign settings c
            (normal raw)
            o
            w).1.db.users
  hashed_admin-Emails raw none w n d = d
  hashed_admin-Emails raw (some hash) w n d =
      upserted-Emails c.query (upsert_admin c.fresh (normal raw) hash w.db.users) w d (λ users.
        upsert_admin-Emails IsNormal c.fresh (normal raw) hash (λ x h. h) (n, (raw, refl))
          w.db.users users d)

  ensure_admin-Emails :
      (admin_email admin_password : String) (w : World)
      → Emails w.db.users
      → Emails
          (ensure_admin u bcrypt to_lower digest difficulty sign settings c admin_email
            admin_password w).1.db.users
  unfolding ensure_admin
  ensure_admin-Emails admin_email admin_password w d =
      guarded-Emails (str_eq (normal admin_email) "" || str_eq admin_password "")
        (hashed_admin u bcrypt to_lower digest difficulty sign settings c (normal admin_email)
          (bcrypt.generate c.salt admin_password) w)
        w d
        (λ q.
          hashed_admin-Emails admin_email (bcrypt.generate c.salt admin_password) w
            (ground (arith, q)) d)
    where
      guarded-Emails :
          (b : Bool) (x : Bool × World) (w : World)
          → Emails w.db.users
          → (b ≡ false → Emails x.1.db.users)
          → Emails (if b then (false, w) else x).1.db.users
      guarded-Emails true x w d h = d
      guarded-Emails false x w d h = h refl

  -- Whatever calls fail, `register` and `ensureAdmin` keep the emails of the accounts distinct, not empty,
  -- and as `normalizeEmail` makes them, so that no two differ in what it removes only.
  pub accounts_differ :
      (admin_email admin_password : String) (w : World)
      → Emails w.db.users
      → Emails (register u bcrypt to_lower digest difficulty sign settings c w).1.db.users
        × Emails
            (ensure_admin u bcrypt to_lower digest difficulty sign settings c admin_email
              admin_password w).1.db.users
  accounts_differ admin_email admin_password w d =
      (register-Emails w d, ensure_admin-Emails admin_email admin_password w d)
