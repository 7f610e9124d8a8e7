-- ===== src/Sessions/Rotation.antt =====
-- A refresh token is good for one refresh, and for none after a logout.
use text.Mathlib.TextLemmas.{append_cancel_left}
use ticket_booking.Base.{
  ◌==◌, ℕ, ◌+◌, ◌*◌, String, ◌≡◌, ◌≢◌, refl, ap, ◌∙◌, Bool, true, false, Option, none, some, [],
  ◌∷◌, ◌⊎◌, inl, inr, arith, str_eq, eq_iff, if_cases, Fault, fine, refused, reply_lost, Bool-cases,
}
use ticket_booking.Redis
use ticket_booking.Redis.{Store}
use ticket_booking.Sessions.{
  Settings, Calls, Answer, issued, rejected, refresh_key, issue_tokens, refresh, logout, set_token,
  draw, signed, answer_with, found, redeem, revoke,
}

abbrev pub is_issued : Answer → Bool
is_issued (issued _ _ _) = true
is_issued (rejected _ _) = false

-- Redis has no such token, at any time.
abbrev pub IsGone : String → Store → Type 0
IsGone t r = r (refresh_key t) ≡ none

refresh_key_inj : (t u : String) → refresh_key t ≡ refresh_key u → t ≡ u
unfolding refresh_key
refresh_key_inj t u e = append_cancel_left "refresh:" t u e

delete-IsGone : (t : String) (r : Store) → IsGone t (Redis.delete (refresh_key t ∷ []) r)
unfolding Redis.delete
delete-IsGone t r = ground (arith, (eq_iff (refresh_key t) (refresh_key t)).1 refl)

set-IsGone :
    (t u user : String) (ttl now : ℕ) (r : Store)
    → u ≢ t
    → IsGone t r
    → IsGone t (Redis.set (refresh_key u) user ttl now r)
unfolding Redis.set Redis.put
set-IsGone t u user ttl now r n g = elim (Bool-cases (str_eq (refresh_key u) (refresh_key t))) [
  | inl e ↦ absurd (n (refresh_key_inj u t ((eq_iff (refresh_key u) (refresh_key t)).0 e)))
  | inr e ↦ rw e (elim (Bool-cases (ttl == 0)) [ inl z ↦ rw z g | inr z ↦ rw z g ])
]

module _ (sign : String → ℕ → Option String) (settings : Settings) (c : Calls) (t : String) where
  issue_tokens-IsGone :
      (user : String) (r : Store)
      → c.drawn ≢ some t
      → IsGone t r
      → IsGone t (issue_tokens sign settings c user r).1
  unfolding issue_tokens
  issue_tokens-IsGone user r n g = of_sign (sign user (c.now + 1000 * settings.access_ttl))
    where
      of_set :
          (f : Fault) (access u : String)
          → u ≢ t
          → IsGone t (set_token sign settings c f user access u r).1
      of_set fine access u m = set-IsGone t u user settings.refresh_ttl c.now r m g
      of_set refused access u m = g
      of_set reply_lost access u m = set-IsGone t u user settings.refresh_ttl c.now r m g

      of_draw :
          (access : String) (d : Option String)
          → c.drawn ≡ d
          → IsGone t (draw sign settings c d user access r).1
      of_draw access none e = g
      of_draw access (some u) e = of_set c.set access u (λ q. n (e ∙ ap some q))

      of_sign : (s : Option String) → IsGone t (signed sign settings c s user r).1
      of_sign none = g
      of_sign (some access) = of_draw access c.drawn refl

  -- An issued answer is for the user that Redis had under the token, which is gone then.
  Redeemed : Store → Answer × Store → Type 0
  Redeemed r (a, r') =
      (is_issued a ≡ false)
      ⊎ ((user : String) × (Redis.read r c.now (refresh_key t) ≡ some user) × IsGone t r')

  refresh_lem : (r : Store) → c.drawn ≢ some t → Redeemed r (refresh sign settings c (some t) r)
  unfolding Redeemed refresh Redis.get_del
  refresh_lem r n = if_cases (Redeemed r) (str_eq t "") _ _ (λ _. inl refl) (λ _. of_fate c.get_del)
    where
      left : Store
      left = Redis.delete (refresh_key t ∷ []) r

      of_tokens :
          (user : String) (x : Option (String × String) × Store)
          → Redis.read r c.now (refresh_key t) ≡ some user
          → IsGone t x.1
          → Redeemed r (answer_with sign settings c user x)
      of_tokens user (none, r') e g = inl refl
      of_tokens user (some (access, u), r') e g = inr (user, e, g)

      of_value :
          (v : Option String)
          → Redis.read r c.now (refresh_key t) ≡ v
          → Redeemed r (found sign settings c v left)
      of_value none e = inl refl
      of_value (some user) e =
          of_tokens user (issue_tokens sign settings c user left) e
            (issue_tokens-IsGone user left n (delete-IsGone t r))

      of_fate :
          (f : Fault)
          → Redeemed r (redeem sign settings c f (Redis.get_del r c.now (refresh_key t)) r)
      of_fate fine = of_value (Redis.read r c.now (refresh_key t)) refl
      of_fate refused = inl refl
      of_fate reply_lost = inl refl

read_gone :
    (t : String) (r : Store) (now : ℕ) → IsGone t r → Redis.read r now (refresh_key t) ≡ none
unfolding Redis.read
read_gone t r now g = rw g refl

refresh_gone :
    (sign : String → ℕ → Option String) (settings : Settings) (c : Calls) (t : String) (r : Store)
    → c.drawn ≢ some t
    → IsGone t r
    → is_issued (refresh sign settings c (some t) r).0 ≡ false
unfolding Redeemed
refresh_gone sign settings c t r n g =
    go (refresh sign settings c (some t) r) (refresh_lem sign settings c t r n)
  where
    go : (x : Answer × Store) → Redeemed sign settings c t r x → is_issued x.0 ≡ false
    go (a, r') (inl e) = e
    go (a, r') (inr (user, e, _)) = ground (arith, e, read_gone t r c.now g)

-- Where no request draws the token again, a token for which `refresh` issues new ones was in Redis
-- for a user, and `refresh` issues nothing more for it in the store that is left.
pub refresh_once :
    (sign : String → ℕ → Option String) (settings : Settings) (c c' : Calls) (t : String)
    (r : Store)
    → c.drawn ≢ some t
    → c'.drawn ≢ some t
    → is_issued (refresh sign settings c (some t) r).0 ≡ true
    → ((user : String) × (Redis.read r c.now (refresh_key t) ≡ some user))
      × (is_issued (refresh sign settings c' (some t) (refresh sign settings c (some t) r).1).0
          ≡ false)
unfolding Redeemed
refresh_once sign settings c c' t r n n' i =
    go (refresh sign settings c (some t) r) (refresh_lem sign settings c t r n) i
  where
    go :
        (x : Answer × Store)
        → Redeemed sign settings c t r x
        → is_issued x.0 ≡ true
        → ((user : String) × (Redis.read r c.now (refresh_key t) ≡ some user))
          × (is_issued (refresh sign settings c' (some t) x.1).0 ≡ false)
    go (a, r') (inl e) i = cc
    go (a, r') (inr (user, e, g)) i = ((user, e), refresh_gone sign settings c' t r' n' g)

-- After a logout whose DEL reached Redis, `refresh` issues nothing for the token in the store that is
-- left, where the request does not draw it again.
pub logout_revokes :
    (sign : String → ℕ → Option String) (settings : Settings) (c c' : Calls) (t : String)
    (r : Store)
    → c.del ≢ refused
    → c'.drawn ≢ some t
    → is_issued (refresh sign settings c' (some t) (logout sign settings c (some t) r)).0 ≡ false
unfolding logout refresh
logout_revokes sign settings c c' t r d n = elim (Bool-cases (str_eq t "")) [
  | inl e ↦ empty_token (logout sign settings c (some t) r) e
  | inr e ↦
      refresh_gone sign settings c' t (logout sign settings c (some t) r) n
        (rw e (of_fate c.del refl))
]
  where
    empty_token :
        (r : Store) → str_eq t "" ≡ true → is_issued (refresh sign settings c' (some t) r).0 ≡ false
    empty_token r e = rw e refl

    of_fate : (f : Fault) → c.del ≡ f → IsGone t (revoke sign settings c f t r)
    of_fate fine e = delete-IsGone t r
    of_fate refused e = absurd (d e)
    of_fate reply_lost e = delete-IsGone t r
