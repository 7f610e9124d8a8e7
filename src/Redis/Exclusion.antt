-- ===== src/Redis/Exclusion.antt =====
-- `holdScript` as a lock on seats: while a hold lasts, no other hold of one of its keys goes through.
use ticket_booking.Base.{
  ℕ, ◌+◌, ◌*◌, ◌<◌, String, ◌≡◌, refl, Bool, true, Option, none, some, List, [], ◌∷◌, arith, str_eq,
  eq_iff, any, inl, inr, Bool-cases, ap, ◌≢◌, sym, ◌∙◌, subst,
}
use ticket_booking.Redis.{Store, exists, hold_script, put_all, one_of}
use ticket_booking.Redis.Laws.{read-put_all, hold_script_cases}

-- A key of the list that passes a test.
any-one_of :
    (p : String → Bool) (ks : List String) (k : String)
    → one_of ks k ≡ true
    → p k ≡ true
    → any p ks ≡ true
any-one_of p [] k h e = cc
any-one_of p (j ∷ ks) k h e = elim (Bool-cases (str_eq j k)) [
  | inl f ↦ ground (arith, ap p ((eq_iff j k).0 f), e)
  | inr f ↦ ground (arith, f, h, any-one_of p ks k, e)
]

exists-put_all :
    (ks : List String) (v : String) (ttl t u : ℕ) (r : Store) (k : String)
    → one_of ks k ≡ true
    → u < t + 1000 * ttl
    → exists (put_all ks v ttl t r) u k ≡ true
unfolding exists
exists-put_all ks v ttl t u r k h l = ground (arith, read-put_all ks v ttl t u r k, h, l)

abbrev code_of : Option (ℕ × Store) → ℕ
code_of none = 2
code_of (some (n, r)) = n

abbrev store_of : Store → Option (ℕ × Store) → Store
store_of d none = d
store_of d (some (n, r)) = r

held_store :
    (ks : List String) (v : String) (ttl t : ℕ) (r r' : Store)
    → hold_script ks v ttl t r ≡ some (1, r')
    → put_all ks v ttl t r ≡ r'
held_store ks v ttl t r r' e = elim (hold_script_cases ks v ttl t r) [
  | inl (_, f) ↦ let differ : 0 ≢ 1 = omega arith in absurd (differ (ap code_of (sym f ∙ e)))
  | inr (inl f) ↦ let differ : 2 ≢ 1 = omega arith in absurd (differ (ap code_of (sym f ∙ e)))
  | inr (inr (_, f)) ↦ ap (store_of r) (sym f ∙ e)
]

-- A key of a hold that went through is there until the hold runs out.
pub hold_lasts :
    (ks : List String) (v : String) (ttl t u : ℕ) (r r' : Store) (k : String)
    → hold_script ks v ttl t r ≡ some (1, r')
    → one_of ks k ≡ true
    → u < t + 1000 * ttl
    → exists r' u k ≡ true
hold_lasts ks v ttl t u r r' k e h l =
    subst (λ s. exists s u k ≡ true) (held_store ks v ttl t r r' e)
      (exists-put_all ks v ttl t u r k h l)

-- After a hold of some keys went through, a hold of a list with one of these keys, made before the
-- first runs out, is turned down and changes nothing.
pub hold_exclusive :
    (ks js : List String) (v w : String) (ttl ttl' t u : ℕ) (r r' : Store) (k : String)
    → hold_script ks v ttl t r ≡ some (1, r')
    → one_of ks k ≡ true
    → one_of js k ≡ true
    → u < t + 1000 * ttl
    → hold_script js w ttl' u r' ≡ some (0, r')
unfolding hold_script
hold_exclusive ks js v w ttl ttl' t u r r' k e h j l =
    let held = hold_lasts ks v ttl t u r r' k e h l in
    rw (any-one_of (exists r' u) js k j held) refl
