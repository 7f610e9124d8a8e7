-- ===== src/Accounts/Access.antt =====
-- Who passes `adminAuth`.
use ticket_booking.Base.{
  String, ◌≡◌, refl, ap, ◌∙◌, sym, Bool, true, false, Option, none, some, ◌↔◌, List, str_eq, Fault,
  if◌then◌else◌, Bool-cases, inl, inr, none_lem, subst,
}
use ticket_booking.Db.{User}
use ticket_booking.World.{Uuids, failed}
use ticket_booking.Accounts.{
  Guarded, lets, turns_away, trim_prefix, user_with, subject, auth, admin_row, only_admin,
  admin_auth,
}

module _ (verify : String → Option String) (u : Uuids) (query : Fault) (users : List User)
    (header sub : String) where
  -- The token is valid for the user, whose row says that he is an administrator.
  pub record IsAdministrator : Type 0 where
    pub token_is : str_eq (trim_prefix header "Bearer ") "" ≡ false
    pub subject_is : verify (trim_prefix header "Bearer ") ≡ some sub
    pub answered : failed query ≡ false
    pub row : User
    pub found : user_with (u.value sub) users ≡ some row
    pub is_admin : row.is_admin ≡ true

  abbrev is_let : Guarded → Bool
  is_let (lets sub) = true
  is_let (turns_away status code) = false

  abbrev who : Guarded → String
  who (lets sub) = sub
  who (turns_away status code) = ""

  row_let :
      (o : Option User) (s : String)
      → admin_row verify o s ≡ lets sub
      → ((x : User) × (o ≡ some x) × (x.is_admin ≡ true)) × (s ≡ sub)
  row_let none s h = let no = ap is_let h in cc
  row_let (some x) s h = elim (Bool-cases x.is_admin) [
    | inl y ↦ (
      (x, refl, y),
      ap who (sym (ap (λ c. if c then lets s else turns_away 403 "admin_only") y) ∙ h),
    )
    | inr n ↦
        let no =
          ap is_let (sym (ap (λ c. if c then lets s else turns_away 403 "admin_only") n) ∙ h) in
        cc
  ]

  abbrev raw : String
  raw = trim_prefix header "Bearer "

  subject_let : (o : Option String) (s : String) → subject verify o ≡ lets s → o ≡ some s
  subject_let none s h = let no = ap is_let h in cc
  subject_let (some t) s h = ap (λ x. some (who x)) h

  auth_let :
      (s : String) → auth verify header ≡ lets s → (str_eq raw "" ≡ false) × (verify raw ≡ some s)
  unfolding auth
  auth_let s h = go (str_eq raw "") refl h
    where
      go :
          (e : Bool)
          → str_eq raw "" ≡ e
          → (if e then turns_away 401 "missing_token" else subject verify (verify raw)) ≡ lets s
          → (str_eq raw "" ≡ false) × (verify raw ≡ some s)
      go true q h = let no = ap is_let h in cc
      go false q h = (q, subject_let (verify raw) s h)

  looked_up :
      (f : Bool) (o : Option User) (x : User)
      → (if f then none else o) ≡ some x
      → (f ≡ false) × (o ≡ some x)
  looked_up true o x h = absurd (none_lem none x refl h)
  looked_up false o x h = (refl, h)

  only_let :
      (g : Guarded)
      → only_admin verify u query users g ≡ lets sub
      → (g ≡ lets sub)
        × ((x : User) × (failed query ≡ false)
            × (user_with (u.value sub) users ≡ some x)
            × (x.is_admin ≡ true))
  only_let (turns_away status code) h = let no = ap is_let h in cc
  only_let (lets s) h =
      let ((x, o, y), e) =
        row_let (if failed query then none else user_with (u.value s) users) s h in
      let (f, k) = looked_up (failed query) (user_with (u.value s) users) x o in
      (ap lets e, (x, f, subst (λ t. user_with (u.value t) users ≡ some x) e k, y))

  let_in : IsAdministrator → admin_auth verify u query users header ≡ lets sub
  unfolding admin_auth auth
  let_in a = rw (a.token_is, a.subject_is, a.answered, a.found, a.is_admin) refl

  only_them : admin_auth verify u query users header ≡ lets sub → IsAdministrator
  unfolding admin_auth
  only_them h =
      let (passed, (x, f, k, y)) = only_let (auth verify header) h in
      let (t, v) = auth_let sub passed in
      record { token_is = t; subject_is = v; answered = f; row = x; found = k; is_admin = y }

  -- `adminAuth` lets a request through for a user exactly if its bearer token is there and valid for
  -- him, the lookup of his row goes through, and the row says at that moment that he is an administrator;
  -- the token itself does not say so.
  pub admin_auth_iff : (admin_auth verify u query users header ≡ lets sub) ↔ IsAdministrator
  admin_auth_iff = (only_them, let_in)
