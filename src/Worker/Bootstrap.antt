-- ===== src/Worker/Bootstrap.antt =====
-- How the loop that makes the administrator ends.
use ticket_booking.Base.{
  ℕ, zero, suc, ◌+◌, ◌<◌, ◌≡◌, refl, sym, subst, Bool, true, false, ◌⊎◌, inl, inr, List, [], ◌∷◌,
  arith, ltb, ◌==◌, if◌then◌else◌, Bool-cases,
}
use ticket_booking.World.{World}
use ticket_booking.Worker.{Line, admin_ok, admin_given_up, admin_loop, bootstrap_admin}

module _ (attempt : ℕ → World → Bool × World) (sleep : ℕ → World → World) where
  -- The state that the attempt number k + n meets if attempt k meets w and none succeeds before.
  abbrev pub met : ℕ → ℕ → World → World
  met zero k w = w
  met (suc n) k w = met n (k + 1) (sleep k (attempt k w).1)

  -- The attempts k, …, k + n - 1 fail.
  abbrev pub AllFail : ℕ → ℕ → World → Type 0
  AllFail zero k w = Unit
  AllFail (suc n) k w = ((attempt k w).0 ≡ true) × AllFail n (k + 1) (sleep k (attempt k w).1)

  -- Of the attempts from number k on, n fail and the next one succeeds, which ends the loop.
  pub record Lands (left k : ℕ) (w : World) (r : List Line × World) : Type 0 where
    pub n : ℕ
    pub number : ℕ
    pub counted : number ≡ k + n
    pub in_time : n < left
    pub before : AllFail n k w
    pub lands : (attempt number (met n k w)).0 ≡ false
    pub result :
        r ≡ (if ltb 1 number then admin_ok number ∷ [] else [], (attempt number (met n k w)).1)

  abbrev pub GivesUp : ℕ → ℕ → World → List Line × World → Type 0
  GivesUp left k w r =
      AllFail left k w × (r ≡ (if ltb 0 left then admin_given_up ∷ [] else [], met left k w))

  further :
      (left k : ℕ) (w : World)
      → (attempt k w).0 ≡ true
      → k + suc left ≡ 31
      → let r = admin_loop attempt sleep left (k + 1) (sleep k (attempt k w).1) in
        Lands left (k + 1) (sleep k (attempt k w).1) r
          ⊎ GivesUp left (k + 1) (sleep k (attempt k w).1) r
        → let r' : List Line × World = (if k == 30 then admin_given_up ∷ r.0 else r.0, r.1) in
          Lands (suc left) k w r' ⊎ GivesUp (suc left) k w r'
  further left k w q e (inl h) = inl (record {
    n = suc h.n;
    number = h.number;
    counted = omega (arith, h.counted);
    in_time = omega (arith, h.in_time);
    before = (q, h.before);
    lands = h.lands;
    result = ground (arith, h.result, h.in_time);
  })
  further left k w q e (inr (a, p)) = inr ((q, a), ground (arith, p))

  loop_ends :
      (left k : ℕ) (w : World)
      → k + left ≡ 31
      → Lands left k w (admin_loop attempt sleep left k w)
        ⊎ GivesUp left k w (admin_loop attempt sleep left k w)
  unfolding admin_loop
  loop_ends zero k w e = inr (tt, refl)
  loop_ends (suc left) k w e = elim (Bool-cases (attempt k w).0) [
    | inl q ↦
        let rest = admin_loop attempt sleep left (k + 1) (sleep k (attempt k w).1) in
        let Ended : Bool → Type 0 = λ failed.
          let r : List Line × World =
            if failed
            then (if k == 30 then admin_given_up ∷ rest.0 else rest.0, rest.1)
            else (if ltb 1 k then admin_ok k ∷ [] else [], (attempt k w).1) in
          Lands (suc left) k w r ⊎ GivesUp (suc left) k w r in
        subst Ended (sym q) (
          further left k w q e
            (loop_ends left (k + 1) (sleep k (attempt k w).1) (omega (arith, e))))
    | inr q ↦ inl (record {
      n = 0;
      number = k;
      counted = omega arith;
      in_time = omega arith;
      before = tt;
      lands = q;
      result = rw q refl;
    })
  ]

  -- The loop that makes the administrator ends after 30 attempts at most, whatever others do to the
  -- state between them. Either some attempt, the first that goes through, ends it, in the state that it
  -- leaves; its number is logged if it was not the first one. Or all 30 fail, which is logged.
  pub bootstrap_ends :
      (w : World)
      → Lands 30 1 w (bootstrap_admin attempt sleep w)
        ⊎ (AllFail 30 1 w × (bootstrap_admin attempt sleep w ≡ (admin_given_up ∷ [], met 30 1 w)))
  unfolding bootstrap_admin
  bootstrap_ends w = loop_ends 30 1 w refl
