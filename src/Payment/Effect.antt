-- ===== src/Payment/Effect.antt =====
-- What `payOrder` does to the tables: nothing, or it charges the whole order.
use ticket_booking.Base.{
  ℕ, ◌≤◌, ◌<◌, String, ◌≡◌, refl, Bool, true, false, ◌||◌, not, Option, none, some, ◌∷◌, ap, ◌∙◌,
  subst, arith, ◌==◌, str_eq, if◌then◌else◌, any, length, select, Ends, Ends-bind, Ends-pure,
  Ends-leave, Ends-imp, Ends-refuse_if, if_cases, Exit, next, leave,
}
use ticket_booking.Db.{
  Db, Order, succeeded, pending, paid, Payment, Written, rows, violation, of_order, sum_price,
  confirm_seats, insert_payment, set_status,
}
use ticket_booking.Db.Consistent.Pay.{with_payment}
use ticket_booking.World.{
  World, Env, Uuids, Response, Body, write_err, charged, find_payment, lock_order, count_items,
  confirm, sum_items, add_payment, set_paid, failed, or_answer,
}
use ticket_booking.Payment.{
  own_order, find_replay, payable, confirm_all, charge, mark_paid, pay_rows, lock, lookup_replay,
  replay,
}

-- Does the answer say that money was taken by this call?
abbrev pub is_charge : Body → Bool
is_charge (charged _ _) = true
is_charge _ = false

module _ (u : Uuids) (env : Env) (user : String) (order_id key : String) where
  abbrev pub o : ℕ
  o = u.value order_id

  abbrev pub order_items : Db → ℕ
  order_items db = length (select (of_order o) db.items)

  abbrev pub amount_of : Db → ℕ
  amount_of db = sum_price (select (of_order o) db.items)

  -- The user's own pending order, in time, with items that are all AVAILABLE, under a fresh key, is
  -- paid for by the sum of its items, and its seats are SOLD; nothing else changes.
  pub record Charged (db db' : Db) : Type 0 where
    pub order : Order
    pub own : own_order u env user order_id key db ≡ some order
    pub is_pending : order.status ≡ pending
    pub in_time : env.clock lock_order ≤ order.expires_at
    pub no_replay : find_replay u env user order_id key db ≡ none
    pub some_items : 0 < order_items db
    pub all_confirmed : (confirm_seats o db).0 ≡ order_items db
    pub fresh_key : any (λ p. str_eq p.idempotency_key key) db.payments ≡ false
    pub effect : db' ≡ with_payment db o key (amount_of db)

  abbrev pub NoCharge : Response → World → Type 0
  NoCharge resp w = is_charge resp.body ≡ false

  lookup_replay-Ends :
      (w : World)
      → Ends NoCharge
          (λ _ w'. (find_replay u env user order_id key w.db ≡ none) × (w' ≡ w))
          (lookup_replay u env user order_id key w)
  lookup_replay-Ends w =
      if_cases (Ends _ _) (failed (env.fault find_payment)) _ _ (λ _. Ends-leave refl)
        (λ _. go (find_replay u env user order_id key w.db) refl)
    where
      go :
          (r : Option Payment)
          → find_replay u env user order_id key w.db ≡ r
          → Ends NoCharge
              (λ _ w'. (find_replay u env user order_id key w.db ≡ none) × (w' ≡ w))
              (replay u env user order_id key r w)
      go none e = Ends-pure (e, refl)
      go (some p) e = Ends-leave refl

  lock-Ends :
      (w : World)
      → Ends NoCharge
          (λ r w'. (own_order u env user order_id key w.db ≡ some r) × (w' ≡ w))
          (lock u env user order_id key w)
  lock-Ends w =
      if_cases (Ends _ _) (failed (env.fault lock_order)) _ _ (λ _. Ends-leave refl)
        (λ _. go (own_order u env user order_id key w.db) refl)
    where
      go :
          (r : Option Order)
          → own_order u env user order_id key w.db ≡ r
          → Ends NoCharge
              (λ r w'. (own_order u env user order_id key w.db ≡ some r) × (w' ≡ w))
              (or_answer r (write_err 404 "order_not_found") w)
      go none e = Ends-leave refl
      go (some r) e = Ends-pure (e, refl)

  payable-Ends :
      (r : Order) (w : World)
      → Ends NoCharge
          (λ _ w'. (r.status ≡ pending) × (env.clock lock_order ≤ r.expires_at) × (w' ≡ w))
          (payable u env user order_id key r w)
  unfolding payable
  payable-Ends r w = Ends-bind _ _ _ (Ends-refuse_if _ _ w (λ _. refl)) λ _ w₁ (e₁, s₁).
      Ends-imp _ (λ _ _ h. h)
        (λ _ w' (e₂, s₂). (ground (arith, e₁, e₂), ground (arith, e₂), s₂ ∙ s₁))
        (Ends-refuse_if _ _ w₁ (λ _. refl))

  confirm_all-Ends :
      (w : World)
      → Ends NoCharge
          (λ _ w'.
            (0 < order_items w.db)
            × ((confirm_seats o w.db).0 ≡ order_items w.db)
            × (w'.db ≡ (confirm_seats o w.db).1)
            × (w'.redis ≡ w.redis))
          (confirm_all u env user order_id key w)
  unfolding confirm_all
  confirm_all-Ends w =
      if_cases (Ends _ _) (failed (env.fault count_items) || order_items w.db == 0) _ _
        (λ _. Ends-leave refl)
        (λ e.
          if_cases (Ends _ _)
            (failed (env.fault confirm) || not ((confirm_seats o w.db).0 == order_items w.db)) _ _
            (λ _. Ends-leave refl)
            (λ f. Ends-pure (ground (arith, e), ground (arith, f), refl, refl)))

  charge-Ends :
      (w : World)
      → Ends NoCharge
          (λ a w'.
            (a ≡ amount_of w.db)
            × (insert_payment o key (amount_of w.db) w.db ≡ rows tt w'.db)
            × (w'.redis ≡ w.redis))
          (charge u env user order_id key w)
  unfolding charge
  charge-Ends w = go (failed (env.fault sum_items)) (failed (env.fault add_payment))
    where
      N : ℕ → World → Type 0
      N a w' =
          (a ≡ amount_of w.db)
          × (insert_payment o key (amount_of w.db) w.db ≡ rows tt w'.db)
          × (w'.redis ≡ w.redis)

      answer : ℕ → Written (Unit {0}) → Exit Response ℕ × World
      answer a (rows _ db) = (next a, record w { db = db })
      answer a violation = (leave (write_err 409 "duplicate_payment"), w)

      inserted :
          (r : Written (Unit {0}))
          → insert_payment o key (amount_of w.db) w.db ≡ r
          → Ends NoCharge N (answer (amount_of w.db) r)
      inserted (rows _ db) e = Ends-pure (refl, e, refl)
      inserted violation e = Ends-leave refl

      go :
          (c d : Bool)
          → Ends NoCharge N (
              if c || d
              then (leave (write_err 409 "duplicate_payment"), w)
              else let a = if c then 0 else amount_of w.db in
                answer a (insert_payment o key a w.db))
      go true d = Ends-leave refl
      go false true = Ends-leave refl
      go false false = inserted (insert_payment o key (amount_of w.db) w.db) refl

  mark_paid-Ends :
      (w : World)
      → Ends NoCharge
          (λ _ w'. (w'.db ≡ set_status paid o w.db) × (w'.redis ≡ w.redis))
          (mark_paid u env user order_id key w)
  unfolding mark_paid
  mark_paid-Ends w =
      if_cases (Ends _ _) (failed (env.fault set_paid)) _ _ (λ _. Ends-leave refl)
        (λ _. Ends-pure (refl, refl))

  insert_payment-eq :
      (db db' : Db) (a : ℕ)
      → insert_payment o key a db ≡ rows tt db'
      → (any (λ p. str_eq p.idempotency_key key) db.payments ≡ false)
        × (db' ≡ record db {
          payments =
              record { order_id = o; idempotency_key = key; status = succeeded; amount = a }
              ∷ db.payments;
        })
  unfolding insert_payment
  insert_payment-eq db db' a e = ground arith

  -- The three writes of a payment together.
  three_writes :
      (db db₁ db₂ db₃ : Db)
      → db₁ ≡ (confirm_seats o db).1
      → insert_payment o key (amount_of db₁) db₁ ≡ rows tt db₂
      → db₃ ≡ set_status paid o db₂
      → (any (λ p. str_eq p.idempotency_key key) db.payments ≡ false)
        × (db₃ ≡ with_payment db o key (amount_of db))
  unfolding confirm_seats set_status with_payment
  three_writes db db₁ db₂ db₃ e f g =
      let (fresh, h) = insert_payment-eq db₁ db₂ (amount_of db₁) f in
      (rw e at fresh, rw (g, h, e) refl)

  pub pay_rows-Ends :
      (w : World)
      → Ends NoCharge
          (λ a w'. (a ≡ amount_of w.db) × Charged w.db w'.db × (w'.redis ≡ w.redis))
          (pay_rows u env user order_id key w)
  unfolding pay_rows confirm_seats
  pay_rows-Ends w = Ends-bind _ _ _ (lookup_replay-Ends w) λ _ w₁ (e₁, s₁).
      Ends-bind _ _ _ (lock-Ends w₁) λ r w₂ (e₂, s₂).
        Ends-bind _ _ _ (payable-Ends r w₂) λ _ w₃ (waits, timely, s₃).
          Ends-bind _ _ _ (confirm_all-Ends w₃) λ _ w₄ (filled, all, d₄, r₄).
            Ends-bind _ _ _ (charge-Ends w₄) λ a w₅ (a₅, e₅, r₅).
              Ends-bind _ _ _ (mark_paid-Ends w₅) λ _ w₆ (e₆, r₆).
                let s : w₃ ≡ w = s₃ ∙ s₂ ∙ s₁ in
                let q : amount_of w₄.db ≡ amount_of w.db =
                  ap amount_of d₄ ∙ ap (λ (x : World). amount_of x.db) s in
                let (fresh, whole) = three_writes w₃.db w₄.db w₅.db w₆.db d₄ e₅ e₆ in
                Ends-pure (
                  a₅ ∙ q,
                  subst (λ x. Charged x.db w₆.db) s
                      (record {
                        order = r;
                        own = rw (s₃, s₂) e₂;
                        is_pending = waits;
                        in_time = timely;
                        no_replay = rw (s₃, s₂, s₁) e₁;
                        some_items = filled;
                        all_confirmed = all;
                        fresh_key = fresh;
                        effect = whole;
                      }),
                  r₆ ∙ r₅ ∙ r₄ ∙ ap (λ (x : World). x.redis) s,
                )
