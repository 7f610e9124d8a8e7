-- ===== src/Pow/SingleUse.antt =====
-- A challenge is accepted once, and only while Redis has it.
use ticket_booking.Base.{
  ℕ, String, ◌≡◌, refl, false, ◌||◌, Option, none, some, List, [], ◌∷◌, ◌≤◌, ◌==◌, str_eq, arith,
  leb, leb→le, inl, inr, Fault, fine, refused, reply_lost, if_cases, ap, ◌≢◌, ◌⊎◌, ◌∙◌, eq_iff,
}
use ticket_booking.Redis
use ticket_booking.Redis.{Store}
use ticket_booking.Redis.Laws.{read-delete}
use ticket_booking.Pow.{
  Headers, Gate, proceed, stopped, Calls, check_pow, pow_solved, pow_key, leading_zero_bits, spend,
  solved,
}

module _ (digest : String → String → List ℕ) (difficulty : ℕ) (c : Calls) where
  -- What a request that the gate lets through has shown, and what is left of its challenge.
  pub record Accepted (h : Headers) (r r' : Store) : Type 0 where
    pub reached : c.get_del ≡ fine
    pub known : Redis.read r c.now (pow_key h.challenge) ≡ some "1"
    pub work : difficulty ≤ leading_zero_bits (digest h.challenge h.solution)
    pub spent : r' ≡ Redis.delete (pow_key h.challenge ∷ []) r

  abbrev pub Decided : Headers → Store → Gate × Store → Type 0
  Decided h r (g, r') = (g ≢ proceed) ⊎ ((g ≡ proceed) × Accepted h r r')

  fresh : {code : String} → stopped code ≢ proceed
  fresh e = cc

  solved_outcome :
      (h : Headers) (r : Store) (v : Option String)
      → c.get_del ≡ fine
      → Redis.read r c.now (pow_key h.challenge) ≡ v
      → Decided h r (solved digest difficulty c h v (Redis.delete (pow_key h.challenge ∷ []) r))
  unfolding pow_solved
  solved_outcome h r none f e = inl fresh
  solved_outcome h r (some v) f e =
      if_cases (Decided h r) (str_eq v "1") _ _
        (λ q.
          if_cases (Decided h r)
            (leb difficulty (leading_zero_bits (digest h.challenge h.solution))) _ _
            (λ w. inr (
              refl,
              record {
                reached = f;
                known = e ∙ ap some ((eq_iff v "1").0 q);
                work = leb→le _ _ w;
                spent = refl;
              },
            ))
            (λ _. inl fresh))
        (λ _. inl fresh)

  pub check_pow_outcome :
      (h : Headers) (r : Store)
      → (difficulty == 0) ≡ false
      → Decided h r (check_pow digest difficulty c h r)
  unfolding check_pow Redis.get_del
  check_pow_outcome h r n =
      if_cases (Decided h r) (difficulty == 0) _ _ (λ e. cc)
        (λ _.
          if_cases (Decided h r) (str_eq h.challenge "" || str_eq h.solution "") _ _
            (λ _. inl fresh) (λ _. go c.get_del refl))
    where
      go :
          (f : Fault)
          → c.get_del ≡ f
          → Decided h r
              (spend digest difficulty c h f (Redis.get_del r c.now (pow_key h.challenge)) r)
      go fine e = solved_outcome h r _ e refl
      go refused e = inl fresh
      go reply_lost e = inl fresh

-- A gate that asks for work lets a challenge through once: the request had it in Redis with the
-- work done, and from then on, in the store that the request left, no request passes with it.
pub accepted_once :
    (digest : String → String → List ℕ) (difficulty : ℕ) (c c' : Calls) (h h' : Headers) (r : Store)
    → (difficulty == 0) ≡ false
    → (check_pow digest difficulty c h r).0 ≡ proceed
    → h'.challenge ≡ h.challenge
    → (Redis.read r c.now (pow_key h.challenge) ≡ some "1")
      × (difficulty ≤ leading_zero_bits (digest h.challenge h.solution))
      × ((check_pow digest difficulty c' h' (check_pow digest difficulty c h r).1).0 ≢ proceed)
accepted_once digest difficulty c c' h h' r n e s =
    go (check_pow digest difficulty c h r) (check_pow_outcome digest difficulty c h r n) e
  where
    go :
        (x : Gate × Store)
        → Decided digest difficulty c h r x
        → x.0 ≡ proceed
        → (Redis.read r c.now (pow_key h.challenge) ≡ some "1")
          × (difficulty ≤ leading_zero_bits (digest h.challenge h.solution))
          × ((check_pow digest difficulty c' h' x.1).0 ≢ proceed)
    go (g, r') (inl q) e = absurd (q e)
    go (g, r') (inr (q, a)) e = (
      a.known,
      a.work,
      λ p.
          again (check_pow digest difficulty c' h' r')
            (check_pow_outcome digest difficulty c' h' r' n) p,
    )
      where
        gone : Redis.read r' c'.now (pow_key h'.challenge) ≡ none
        gone =
            rw (a.spent, s)
              (ground (
                arith,
                (eq_iff (pow_key h.challenge) (pow_key h.challenge)).1 refl,
                read-delete (pow_key h.challenge ∷ []) r c'.now (pow_key h.challenge),
              ))

        again : (y : Gate × Store) → Decided digest difficulty c' h' r' y → y.0 ≢ proceed
        again (g, r'') (inl q) p = q p
        again (g, r'') (inr (q, b)) p = ground (arith, gone, b.known)
