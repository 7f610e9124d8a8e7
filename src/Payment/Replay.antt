-- ===== src/Payment/Replay.antt =====
-- A payment repeated under its idempotency key.
use ticket_booking.Base.{
  ℕ, String, ◌≡◌, refl, true, false, some, arith, str_eq, eq_iff, is_uuid, leave, next, fine, ap,
  Exit, Ends, EndsBy, Ends-bind, Ends-leave, Ends-refuse_if,
}
use ticket_booking.Db.{Db, Payment, succeeded}
use ticket_booking.Db.Consistent.Pay.{with_payment}
use ticket_booking.World.{World, Env, Uuids, Response, Site, calm, replayed, reply, transaction}
use ticket_booking.World.Outcomes.{Ends-transaction}
use ticket_booking.Payment.{
  find_replay, lookup_replay, pay_rows, pay_commit, pay_checked, pay_order, db_error,
}
use ticket_booking.Payment.Effect.{Charged, amount_of}

module _ (u : Uuids) (order key : String) where
  -- The row that a charge leaves.
  abbrev receipt : ℕ → Payment
  receipt amount = record {
    order_id = u.value order;
    idempotency_key = key;
    status = succeeded;
    amount = amount;
  }

  charge_is_found :
      (env : Env) (user : String) (db : Db) (amount : ℕ)
      → find_replay u env user order key (with_payment db (u.value order) key amount)
        ≡ some (receipt amount)
  unfolding find_replay with_payment
  charge_is_found env user db amount = ground (arith, (eq_iff key key).1 refl)

  module _ (clock : Site → ℕ) (fresh : ℕ) (user : String) (w : World) (p : Payment)
      (h : find_replay u (calm clock fresh) user order key w.db ≡ some p) where
    abbrev env : Env
    env = calm clock fresh

    abbrev answer : Response
    answer = record { status = 200; body = replayed order p.status }

    -- The handler leaves with the replay, and has changed nothing.
    abbrev Left : Response → World → Type 0
    Left resp w' = (resp ≡ answer) × (w' ≡ w)

    abbrev Never : {A : Type 0} → A → World → Type 0
    Never a w' = ⊥

    lookup_replay-replay : Ends Left Never (lookup_replay u env user order key w)
    lookup_replay-replay = rw h (Ends-leave (refl, refl))

    pay_rows-replay : Ends Left Never (pay_rows u env user order key w)
    unfolding pay_rows
    pay_rows-replay = Ends-bind _ _ _ lookup_replay-replay (λ _ _ x. absurd x)

    tx_replay :
        Ends Left Never
          (transaction fine (λ x. (leave db_error, x)) (pay_rows u env user order key) w)
    tx_replay =
        Ends-transaction fine (λ x. (leave db_error, x)) (pay_rows u env user order key) w
          pay_rows-replay (λ e w' (r, s). (r, ap (λ (x : World). record x { db = w.db }) s))
          (λ _ _ x. x) (λ _ _ x. absurd x) (λ _ _ x _. absurd x)

    pay_commit-replay :
        is_uuid order ≡ true
        → str_eq key "" ≡ false
        → Ends Left Never (pay_commit u env user order key w)
    pay_commit-replay id k =
        Ends-bind _ _ _ (Ends-refuse_if _ _ w (λ e. ground (arith, e, id))) λ _ w₁ (_, s₁).
          Ends-bind _ _ _ (Ends-refuse_if _ _ w₁ (λ e. ground (arith, e, k))) λ _ w₂ (_, s₂).
            Ends-bind _ _ _ (Ends-refuse_if false db_error w₂ (λ e. ground (arith, e)))
              λ _ w₃ (_, s₃). rw (s₃, s₂, s₁) tx_replay

    pay_checked-replay :
        is_uuid order ≡ true
        → str_eq key "" ≡ false
        → Ends Left Never (pay_checked u env user order key w)
    pay_checked-replay id k = Ends-bind _ _ _ (pay_commit-replay id k) (λ _ _ x. absurd x)

    replay_of :
        is_uuid order ≡ true
        → str_eq key "" ≡ false
        → pay_order u env user order key w ≡ (answer, w)
    unfolding pay_order
    replay_of id k = go (pay_checked u env user order key w) (pay_checked-replay id k).holds
      where
        go : (x : Exit Response Response × World) → EndsBy Left Never x → reply x ≡ (answer, w)
        go (leave resp, w') (e, s) = rw (e, s) refl
        go (next resp, w') x = absurd x

  -- Once an order is charged under a key, whatever the answer then said, a repetition of the request
  -- none of whose calls fails answers 200 with the status of that payment and changes nothing, whoever
  -- sends it.
  pub pay_order-replay :
      (env : Env) (user : String) (clock : Site → ℕ) (fresh : ℕ) (user' : String) (w : World)
      → is_uuid order ≡ true
      → str_eq key "" ≡ false
      → Charged u env user order key w.db (pay_order u env user order key w).1.db
      → let w' = (pay_order u env user order key w).1 in
        pay_order u (calm clock fresh) user' order key w'
        ≡ (record { status = 200; body = replayed order succeeded }, w')
  pay_order-replay env user clock fresh user' w id k c =
      go (pay_order u env user order key w).1 c.effect
    where
      go :
          (w' : World)
          → w'.db ≡ with_payment w.db (u.value order) key (amount_of u env user order key w.db)
          → pay_order u (calm clock fresh) user' order key w'
            ≡ (record { status = 200; body = replayed order succeeded }, w')
      go w' e =
          replay_of clock fresh user' w' (receipt (amount_of u env user order key w.db))
            (rw e
              (charge_is_found (calm clock fresh) user' w.db (amount_of u env user order key w.db)))
            id k
