-- ===== src/Accounts/Passwords.antt =====
-- `login` lets in exactly who has the password.
use ticket_booking.Base.{
  ℕ, String, ◌≡◌, refl, ap, Bool, true, false, Option, none, some, List, arith, fine, Exit, next,
  leave, Ends, EndsBy, Ends-bind, Ends-pure, Ends-leave, Ends-guard, sym, not, none_lem, some_lem,
}
use ticket_booking.Db.{User}
use ticket_booking.World.{World, Uuids, failed, or_answer}
use ticket_booking.World.Outcomes.{Ends-found}
use ticket_booking.Redis.{Store}
use ticket_booking.Pow
use ticket_booking.Sessions
use ticket_booking.Accounts.{
  Bcrypt, Credentials, Visit, Answer, denied, user_of, normalize_email, gate, start_session,
  verified, then_session, login,
}

module _ (u : Uuids) (bcrypt : Bcrypt) (to_lower : String → String)
    (digest : String → String → List ℕ) (difficulty : ℕ) (sign : String → ℕ → Option String)
    (settings : Sessions.Settings) (c : Visit) (b : Credentials) (w : World) (r : Store) where
  -- The account that the email names.
  abbrev pub account : Option User
  account =
      user_of (normalize_email u bcrypt to_lower digest difficulty sign settings c b.email)
        w.db.users

  abbrev pub gone_on : World
  gone_on = record w { redis = r }

  abbrev refusal : Answer
  refusal = denied 401 "invalid_credentials"

  -- The email names this account, and the password is its.
  abbrev pub IsOwn : User → Type 0
  IsOwn x = (account ≡ some x) × (bcrypt.compare x.password_hash b.password ≡ true)

  abbrev Refused : Answer → World → Type 0
  Refused a w' =
      (a ≡ refusal)
      × (w' ≡ gone_on)
      × ((x : User) → account ≡ some x → bcrypt.compare x.password_hash b.password ≡ false)

  abbrev Found : ℕ × Bool → World → Type 0
  Found ia w' = (x : User) × IsOwn x × (ia ≡ (x.id, x.is_admin)) × (w' ≡ gone_on)

  verified-Ends :
      Pow.check_pow digest difficulty c.gate c.headers w.redis ≡ (Pow.proceed, r)
      → c.query ≡ fine
      → c.body ≡ some b
      → Ends Refused Found (verified u bcrypt to_lower digest difficulty sign settings c w)
  unfolding verified
  verified-Ends g q e = Ends-bind _ _ _ passes λ _ w₁ s₁.
      Ends-found c.body _ _ w₁ (λ n. absurd (none_lem c.body b n e))
        λ b' e'.
          Ends-guard _ _ _ w₁ (λ f. absurd (intact f))
            λ _.
              rw (s₁, sym (some_lem c.body b b' e e'))
                (Ends-bind _ _ _ (looked_up account refl) λ x w₂ (there, s₂). rw s₂ (
                  Ends-guard _ _ _ gone_on (λ n. (refl, refl, wrong x there n))
                    λ n. Ends-pure (x, (there, ground (arith, n)), refl, refl)))
    where
      passes :
          Ends Refused
            (λ _ w'. w' ≡ gone_on)
            (gate u bcrypt to_lower digest difficulty sign settings c w)
      passes = rw g (Ends-pure refl)

      intact : failed c.query ≡ true → ⊥
      intact f = let fails = ap failed q in cc

      looked_up :
          (o : Option User)
          → account ≡ o
          → Ends Refused (λ x w'. (account ≡ some x) × (w' ≡ gone_on)) (or_answer o refusal gone_on)
      looked_up none n = Ends-leave (refl, refl, λ x k. absurd (none_lem account x n k))
      looked_up (some x) n = Ends-pure (n, refl)

      wrong :
          (x : User)
          → account ≡ some x
          → not (bcrypt.compare x.password_hash b.password) ≡ true
          → (y : User) → account ≡ some y
          → bcrypt.compare y.password_hash b.password ≡ false
      wrong x k n y j = rw (some_lem account y x j k) (ground (arith, n))

  pub login_iff :
      Pow.check_pow digest difficulty c.gate c.headers w.redis ≡ (Pow.proceed, r)
      → c.query ≡ fine
      → c.body ≡ some b
      → ((x : User)
          → IsOwn x
          → login u bcrypt to_lower digest difficulty sign settings c w
            ≡ start_session u bcrypt to_lower digest difficulty sign settings c 200 x.id x.is_admin
                gone_on)
        × (((x : User) → account ≡ some x → bcrypt.compare x.password_hash b.password ≡ false)
            → login u bcrypt to_lower digest difficulty sign settings c w
              ≡ (denied 401 "invalid_credentials", gone_on))
  unfolding login
  login_iff g q e =
      go (verified u bcrypt to_lower digest difficulty sign settings c w)
        (verified-Ends g q e).holds
    where
      go :
          (x : Exit Answer (ℕ × Bool) × World)
          → EndsBy Refused Found x
          → ((x' : User)
              → IsOwn x'
              → then_session u bcrypt to_lower digest difficulty sign settings c 200 x
                ≡ start_session u bcrypt to_lower digest difficulty sign settings c 200 x'.id
                    x'.is_admin gone_on)
            × (((x' : User)
                  → account ≡ some x'
                  → bcrypt.compare x'.password_hash b.password ≡ false)
                → then_session u bcrypt to_lower digest difficulty sign settings c 200 x
                  ≡ (refusal, gone_on))
      go (leave a, w') (is, s, none_is) =
          (λ x (k, y). let no = none_is x k in cc, λ _. rw (is, s) refl)
      go (next (id, adm), w') (x, (k, y), is, s) = (
        λ x' (k', y').
            rw (some_lem account x' x k' k, s)
              (ap
                (λ (z : ℕ × Bool).
                  start_session u bcrypt to_lower digest difficulty sign settings c 200 z.0 z.1
                    gone_on)
                is),
        λ no. let wrong = no x k in cc,
      )
