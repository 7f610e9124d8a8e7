-- ===== src/Payment/Answer.antt =====
-- The whole of `payOrder`: its answers and its effect on the tables.
use ticket_booking.Base.{
  ℕ, String, ◌≡◌, refl, true, false, some, ◌⊎◌, inl, inr, ap, ◌∙◌, arith, reply_lost, Exit, next,
  leave, Ends, EndsBy, Ends-bind, Ends-pure, Ends-leave, Ends-refuse_if, first, ◌==◌, ◌&&◌, List,
  [], ◌∷◌, any, Distinct,
}
use ticket_booking.Db.{Db, Order}
use ticket_booking.Db.Rows.{is_open, status_of}
use ticket_booking.Db.Consistent.{IsConsistent, order_id}
use ticket_booking.Db.Consistent.Pay.{with_payment-IsConsistent}
use ticket_booking.Holds.Keys.{db-clear_holds}
use ticket_booking.World.{World, Env, Uuids, Response, charged, commit, reply, transaction}
use ticket_booking.World.Outcomes.{Ends-transaction}
use ticket_booking.Payment.{db_error, own_order, pay_rows, pay_commit, pay_checked, pay_order}
use ticket_booking.Payment.Effect.{is_charge, amount_of, Charged, pay_rows-Ends}

first_listed :
    (k user : ℕ) (orders : List Order) (r : Order)
    → first (λ x. x.id == k && x.user_id == user) orders ≡ some r
    → any (λ x. order_id x == k) orders ≡ true
first_listed k user [] r e = cc
first_listed k user (x ∷ orders) r e = ground (arith, first_listed k user orders r)

-- The order that the handler locked is the one of its id.
pub first-status_of :
    (k user : ℕ) (orders : List Order) (r : Order)
    → Distinct order_id orders
    → first (λ x. x.id == k && x.user_id == user) orders ≡ some r
    → status_of k orders ≡ some r.status
first-status_of k user [] r d e = cc
first-status_of k user (x ∷ orders) r (f, d) e =
    ground (arith, f, first-status_of k user orders r d, first_listed k user orders r)

module _ (u : Uuids) (env : Env) (user : String) (order : String) (key : String) where
  -- The tables are as they were under an answer that is no charge; or the order is charged, and the
  -- answer says so unless the reply to the COMMIT was lost.
  abbrev pub Settled : World → Response × World → Type 0
  Settled w (resp, w') =
      ((is_charge resp.body ≡ false) × (w'.db ≡ w.db))
      ⊎ (Charged u env user order key w.db w'.db
          × ((resp ≡ record {
            status = 200;
            body = charged order (amount_of u env user order key w.db);
          })
              ⊎ ((env.fault commit ≡ reply_lost) × (is_charge resp.body ≡ false))))

  abbrev pub Left : World → Response → World → Type 0
  Left w resp w' =
      (is_charge resp.body ≡ false)
      × ((w'.db ≡ w.db)
          ⊎ (Charged u env user order key w.db w'.db × (env.fault commit ≡ reply_lost)))

  abbrev pub Went : World → ℕ → World → Type 0
  Went w a w' = (a ≡ amount_of u env user order key w.db) × Charged u env user order key w.db w'.db

  pay_tx_Ends :
      (w : World)
      → Ends (Left w) (Went w) (
          transaction
            (env.fault commit)
            (λ x. (leave db_error, x))
            (pay_rows u env user order key)
            w)
  pay_tx_Ends w =
      Ends-transaction (env.fault commit) (λ x. (leave db_error, x)) (pay_rows u env user order key)
        w (pay_rows-Ends u env user order key w) (λ resp w' h. (h, inl refl))
        (λ a w' (e, c, r). (e, c)) (λ a w' h. Ends-leave (refl, inl refl))
        (λ a w' (e, c, r) q. Ends-leave (refl, inr (c, q)))

  abbrev Paid : World → Response → World → Type 0
  Paid w r w' =
      Charged u env user order key w.db w'.db
      × (r ≡ record { status = 200; body = charged order (amount_of u env user order key w.db) })

  pub pay_commit-Ends : (w : World) → Ends (Left w) (Went w) (pay_commit u env user order key w)
  pay_commit-Ends w =
      Ends-bind _ _ _ (Ends-refuse_if _ _ w (λ _. (refl, inl refl))) λ _ w₁ (e₁, s₁).
        Ends-bind _ _ _ (Ends-refuse_if _ _ w₁ (λ _. (refl, inl (ap (λ (x : World). x.db) s₁))))
          λ _ w₂ (e₂, s₂).
            Ends-bind _ _ _
              (Ends-refuse_if _ _ w₂ (λ _. (refl, inl (ap (λ (x : World). x.db) (s₂ ∙ s₁)))))
              λ _ w₃ (e₃, s₃). rw (s₃, s₂, s₁) (pay_tx_Ends w)

  pay_checked-Ends : (w : World) → Ends (Left w) (Paid w) (pay_checked u env user order key w)
  pay_checked-Ends w =
      Ends-bind _ _ _ (pay_commit-Ends w) λ a w₁ (e, c). Ends-pure (rw db-clear_holds c, rw e refl)

  -- Whatever calls fail, `payOrder` ends in one of two ways. Either the answer does not report a charge
  -- and the tables are as they were. Or the caller's own pending order, in time and under a key that no
  -- payment has, is charged the sum of its items, its seats become SOLD and it becomes PAID; then the
  -- answer reports that amount, unless the reply to the COMMIT was lost.
  pub pay_order_effect : (w : World) → Settled w (pay_order u env user order key w)
  unfolding pay_order
  pay_order_effect w = go (pay_checked u env user order key w) (pay_checked-Ends w).holds
    where
      go : (r : Exit Response Response × World) → EndsBy (Left w) (Paid w) r → Settled w (reply r)
      go (next r, w') (c, e) = inr (c, inl e)
      go (leave r, w') (n, inl same) = inl (n, same)
      go (leave r, w') (n, inr (c, q)) = inr (c, inr (q, n))

  pub Charged-is_open :
      (db db' : Db)
      → Charged u env user order key db db'
      → IsConsistent db
      → is_open (status_of (u.value order) db.orders) ≡ true
  unfolding own_order
  Charged-is_open db db' c v = ground (
    arith,
    first-status_of (u.value order) (u.value user) db.orders c.order v.orders_differ c.own,
    c.is_pending,
  )

  Charged-IsConsistent :
      (db db' : Db) → Charged u env user order key db db' → IsConsistent db → IsConsistent db'
  Charged-IsConsistent db db' c v =
      rw c.effect
        (with_payment-IsConsistent db (u.value order) key _ v (Charged-is_open db db' c v) refl)
