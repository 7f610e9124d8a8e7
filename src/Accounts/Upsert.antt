-- ===== src/Accounts/Upsert.antt =====
-- The row that `ensureAdmin` leaves under its email.
use ticket_booking.Base.{
  ℕ, String, ◌≡◌, refl, ap, subst, Bool, true, false, none, some, inl, inr, List, [], ◌∷◌, arith,
  any, update, str_eq, eq_iff, unless_lem, get_or, Bool-cases, if◌then◌else◌, ◌==◌,
}
use ticket_booking.Db.{User}
use ticket_booking.Accounts.{has_email, user_of, upsert_admin}

-- The row of an email after a change of the rows of that email.
user_of-update :
    (email : String) (f : User → User)
    → ((x : User) → (f x).email ≡ x.email)
    → (users : List User) → any (has_email email) users ≡ true
    → (x : User) × (user_of email (update (has_email email) f users) ≡ some (f x))
user_of-update email f e [] h = cc
user_of-update email f e (x ∷ xs) h = elim (Bool-cases (str_eq x.email email)) [
  | inl q ↦ (x, rw q (rw (e x, q) refl))
  | inr q ↦ let (y, k) = user_of-update email f e xs (ground (arith, h, q)) in (y, rw q (rw q k))
]

-- The row that the upsert leaves under its email.
pub upsert_row :
    (fresh : ℕ) (email hash : String) (users users' : List User)
    → upsert_admin fresh email hash users ≡ some users'
    → (x : User) × (user_of email users' ≡ some x) × (x.password_hash ≡ hash) × (x.is_admin ≡ true)
unfolding upsert_admin
upsert_row fresh email hash users users' h = go (any (has_email email) users) refl h
  where
    go :
        (b : Bool)
        → any (has_email email) users ≡ b
        → (if b
            then some (
                update
                  (has_email email)
                  (λ x. record x { is_admin = true; password_hash = hash })
                  users)
            else if any (λ x. x.id == fresh) users
            then none
            else some (
                record { id = fresh; email = email; password_hash = hash; is_admin = true }
                ∷ users))
          ≡ some users'
        → (x : User) × (user_of email users' ≡ some x)
          × (x.password_hash ≡ hash)
          × (x.is_admin ≡ true)
    go true q h =
        let (x, k) =
          user_of-update email (λ x. record x { is_admin = true; password_hash = hash }) (λ _. refl)
            users q in
        (
          record x { is_admin = true; password_hash = hash },
          subst (λ us. user_of email us ≡ some (record x { is_admin = true; password_hash = hash }))
              (ap (get_or users) h) k,
          refl,
          refl,
        )
    go false q h =
        let (free, put) = unless_lem _ _ users' h in
        (
          record { id = fresh; email = email; password_hash = hash; is_admin = true },
          rw put (rw ((eq_iff email email).1 refl) refl),
          refl,
          refl,
        )
