-- ===== src/Accounts/Registration.antt =====
-- The whole of `register`: its answers and its effect on the tables.
use mathlib.Core.Bool.{not}
use Prim.Native.String.{len}
use ticket_booking.Base.{
  str_eq, ltb, ℕ, String, ◌≡◌, ◌≢◌, refl, Bool, false, ◌||◌, Option, none, some, ◌⊎◌, inl, inr,
  List, ◌∷◌, arith, any, ◌==◌, Fault, fine, refused, reply_lost, Exit, next, leave, Ends, EndsBy,
  Ends-bind, Ends-pure, Ends-leave, Ends-guard, Ends-imp, unless_lem, subst, sym, pure, ◌>>=◌,
}
use ticket_booking.Db.{Db, User}
use ticket_booking.World.{World, Uuids}
use ticket_booking.World.Outcomes.{Ends-found}
use ticket_booking.Redis.{Store}
use ticket_booking.Pow
use ticket_booking.Sessions
use ticket_booking.Accounts.{
  Bcrypt, has_at, min_password_len, Credentials, Visit, Answer, tokens_for, denied, has_email,
  insert_user, normalize_email, passed, gate, issued, start_session, stored, add_user,
  check_registration, registered, then_session, register,
}

abbrev pub status_of : Answer → ℕ
status_of (tokens_for status _ _ _ _) = status
status_of (denied status _) = status

module _ (u : Uuids) (bcrypt : Bcrypt) (to_lower : String → String)
    (digest : String → String → List ℕ) (difficulty : ℕ) (sign : String → ℕ → Option String)
    (settings : Sessions.Settings) (c : Visit) where
  abbrev L : World → Answer → World → Type 0
  L w a w' = (status_of a ≢ 201) × (w'.db ≡ w.db)

  pub gate-Ends :
      (w : World)
      → Ends
          (L w)
          (λ _ w'. w'.db ≡ w.db)
          (gate u bcrypt to_lower digest difficulty sign settings c w)
  gate-Ends w = go (Pow.check_pow digest difficulty c.gate c.headers w.redis)
    where
      go :
          (x : Pow.Gate × Store)
          → Ends
              (L w)
              (λ _ w'. w'.db ≡ w.db)
              (passed u bcrypt to_lower digest difficulty sign settings c x w)
      go (Pow.proceed, r) = Ends-pure refl
      go (Pow.stopped code, r) = Ends-leave (omega arith, refl)

  -- What the guards have made of the body.
  pub record Hashed (email hash : String) : Type 0 where
    pub body : Credentials
    pub is_body : c.body ≡ some body
    pub is_email :
        email ≡ normalize_email u bcrypt to_lower digest difficulty sign settings c body.email
    pub is_valid : (str_eq email "" || not (has_at email)) ≡ false
    pub is_long : ltb (len body.password) min_password_len ≡ false
    pub is_hash : bcrypt.generate c.salt body.password ≡ some hash

  check_registration-Ends :
      (w : World)
      → Ends
          (L w)
          (λ eh w'. Hashed eh.0 eh.1 × (w'.db ≡ w.db))
          (check_registration u bcrypt to_lower digest difficulty sign settings c w)
  unfolding check_registration
  check_registration-Ends w = Ends-bind _ _ _ (gate-Ends w) λ _ w₁ s₁.
      Ends-found c.body _ _ w₁ (λ _. (omega arith, s₁))
        λ b q.
          Ends-guard _ _ _ w₁ (λ _. (omega arith, s₁))
            λ valid.
              Ends-guard _ _ _ w₁ (λ _. (omega arith, s₁))
                λ long.
                  Ends-found _ _ _ w₁ (λ _. (omega arith, s₁))
                    λ h e. Ends-pure (
                      record {
                        body = b;
                        is_body = q;
                        is_email = refl;
                        is_valid = valid;
                        is_long = long;
                        is_hash = e;
                      },
                      s₁,
                    )

  abbrev pub new_user : String → String → User
  new_user email hash = record {
    id = c.fresh;
    email = email;
    password_hash = hash;
    is_admin = false;
  }

  -- The new account stands beside the others, under an email that none has.
  pub record Added (db db' : Db) : Type 0 where
    pub email : String
    pub hash : String
    pub hashed : Hashed email hash
    pub untaken : any (λ x. has_email email x || x.id == c.fresh) db.users ≡ false
    pub effect : db' ≡ record db { users = new_user email hash ∷ db.users }

  add_user-Ends :
      (email hash : String) (w : World)
      → Hashed email hash
      → Ends
          (λ a w'. (status_of a ≢ 201) × ((w'.db ≡ w.db) ⊎ Added w.db w'.db))
          (λ _ w'. Added w.db w'.db)
          (add_user u bcrypt to_lower digest difficulty sign settings c email hash w)
  unfolding insert_user
  add_user-Ends email hash w h = go c.query (insert_user c.fresh email hash w.db.users) refl
    where
      made :
          (users : List User)
          → insert_user c.fresh email hash w.db.users ≡ some users
          → Added w.db (record w.db { users = users })
      made users e =
          let (free, put) = unless_lem _ _ users e in
          record { email = email; hash = hash; hashed = h; untaken = free; effect = rw put refl }

      go :
          (f : Fault) (o : Option (List User))
          → insert_user c.fresh email hash w.db.users ≡ o
          → Ends
              (λ a w'. (status_of a ≢ 201) × ((w'.db ≡ w.db) ⊎ Added w.db w'.db))
              (λ _ w'. Added w.db w'.db)
              (stored u bcrypt to_lower digest difficulty sign settings c f o w)
      go refused o e = Ends-leave (omega arith, inl refl)
      go fine none e = Ends-leave (omega arith, inl refl)
      go reply_lost none e = Ends-leave (omega arith, inl refl)
      go fine (some users) e = Ends-pure (made users e)
      go reply_lost (some users) e = Ends-leave (omega arith, inr (made users e))

  abbrev Kept : World → Answer → World → Type 0
  Kept w a w' = (status_of a ≢ 201) × ((w'.db ≡ w.db) ⊎ Added w.db w'.db)

  registered-Ends :
      (w : World)
      → Ends
          (Kept w)
          (λ _ w'. Added w.db w'.db)
          (registered u bcrypt to_lower digest difficulty sign settings c w)
  registered-Ends w =
      Ends-bind _ _ _
        (Ends-imp _ (λ a w' (n, s). (n, inl s)) (λ _ w' h. h) (check_registration-Ends w))
        λ new w₁ (h, s₁).
          subst
            (λ db.
              Ends (λ a w'. (status_of a ≢ 201) × ((w'.db ≡ db) ⊎ Added db w'.db))
                (λ _ w'. Added db w'.db)
                (add_user u bcrypt to_lower digest difficulty sign settings c new.0 new.1 w₁))
            s₁ (add_user-Ends new.0 new.1 w₁ h)

  -- No account under another answer than 201, or the new account; if it is there, the answer is its
  -- tokens, or an error.
  abbrev pub Registered : World → Answer × World → Type 0
  Registered w (a, w') =
      ((status_of a ≢ 201) × (w'.db ≡ w.db))
      ⊎ (Added w.db w'.db
          × (((access : String) × (refresh : String) × (a
                  ≡ tokens_for 201 c.fresh access refresh false))
              ⊎ (status_of a ≢ 201)))

  -- Whatever calls fail, `register` ends in one of two ways. Either the answer is not 201 and the tables
  -- are as they were. Or one account is added, under the normalized email of the body, which no account
  -- had, with a hash of its password, not an administrator's, and no other row changes; then the answer
  -- is 201 with tokens for it, or an error.
  pub register_effect :
      (w : World) → Registered w (register u bcrypt to_lower digest difficulty sign settings c w)
  unfolding register
  register_effect w =
      go
        ((registered u bcrypt to_lower digest difficulty sign settings c >>= λ _.
            pure (c.fresh, false))
          w)
        whole.holds
    where
      whole :
          Ends {A = ℕ × Bool}
            (Kept w)
            (λ x w'. (x ≡ (c.fresh, false)) × Added w.db w'.db)
            ((registered u bcrypt to_lower digest difficulty sign settings c >>= λ _.
                pure (c.fresh, false))
              w)
      whole = Ends-bind _ _ _ (registered-Ends w) λ _ w₁ a. Ends-pure (refl, a)

      session :
          (w₁ : World) (x : Option (String × String) × Store)
          → Added w.db w₁.db
          → Registered w
              (issued u bcrypt to_lower digest difficulty sign settings c 201 c.fresh false x w₁)
      session w₁ (none, r) h = inr (h, inr (omega arith))
      session w₁ (some (access, refresh), r) h = inr (h, inl (access, refresh, refl))

      go :
          (r : Exit Answer (ℕ × Bool) × World)
          → EndsBy {A = ℕ × Bool} (Kept w) (λ x w'. (x ≡ (c.fresh, false)) × Added w.db w'.db) r
          → Registered w (then_session u bcrypt to_lower digest difficulty sign settings c 201 r)
      go (leave a, w₁) (n, inl same) = inl (n, same)
      go (leave a, w₁) (n, inr h) = inr (h, inr n)
      go (next (id, adm), w₁) (e, h) =
          subst
            (λ (x : ℕ × Bool).
              Registered w
                (start_session u bcrypt to_lower digest difficulty sign settings c 201 x.0 x.1 w₁))
            (sym e)
            (session w₁ (Sessions.issue_tokens sign settings c.tokens (u.text c.fresh) w₁.redis) h)
