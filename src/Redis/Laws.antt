-- ===== src/Redis/Laws.antt =====
-- What a read sees after each write, and that a hold takes all of its keys or none.
use ticket_booking.Base.{
  ℕ, ◌+◌, ◌*◌, String, ◌≡◌, refl, none, some, List, [], ◌∷◌, arith, ltb, if◌then◌else◌, any, ◌==◌,
  ◌⊎◌, inl, inr, true, false, Bool-cases,
}
use ticket_booking.Redis.{Store, read, exists, hold_script, put, put_all, delete, one_of}

pub put_all-at :
    (ks : List String) (v : String) (ttl now : ℕ) (r : Store) (j : String)
    → put_all ks v ttl now r j ≡ (
        if one_of ks j then some (record { value = v; expires = some (now + 1000 * ttl) }) else r j)
unfolding put_all
put_all-at [] v ttl now r j = refl
put_all-at (k ∷ ks) v ttl now r j = ground (arith, put_all-at ks v ttl now (put k v ttl now r) j)

pub read-put_all :
    (ks : List String) (v : String) (ttl t u : ℕ) (r : Store) (j : String)
    → read (put_all ks v ttl t r) u j
      ≡ (if one_of ks j then (if ltb u (t + 1000 * ttl) then some v else none) else read r u j)
unfolding read
read-put_all ks v ttl t u r j = ground (arith, put_all-at ks v ttl t r j)

pub read-delete :
    (ks : List String) (r : Store) (u : ℕ) (j : String)
    → read (delete ks r) u j ≡ (if one_of ks j then none else read r u j)
unfolding read delete
read-delete ks r u j = ground arith

-- The three ways in which a hold ends.
pub hold_script_cases :
    (ks : List String) (v : String) (ttl now : ℕ) (r : Store)
    → ((any (exists r now) ks ≡ true) × (hold_script ks v ttl now r ≡ some (0, r)))
      ⊎ ((hold_script ks v ttl now r ≡ none)
          ⊎ ((any (exists r now) ks ≡ false)
              × (hold_script ks v ttl now r ≡ some (1, put_all ks v ttl now r))))
unfolding hold_script
hold_script_cases ks v ttl now r = elim (Bool-cases (any (exists r now) ks)) [
  | inl e ↦ inl (e, rw e refl)
  | inr e ↦ elim (Bool-cases (ttl == 0)) [
    | inl f ↦ inr (inl (rw (e, f) refl))
    | inr f ↦ inr (inr (e, rw (e, f) refl))
  ]
]
