-- ===== src/Cancel/Effect.antt =====
-- The whole of `cancelOrder` and of `expireOverdueOrders`: their answers and their effect on the
-- tables.
use ticket_booking.Base.{
  true, Fault, ℕ, String, ◌≡◌, ◌≢◌, refl, Option, some, none, ◌⊎◌, inl, inr, ap, arith, if_cases,
  fine, refused, reply_lost, Exit, next, leave, Ends, EndsBy, Ends-bind, Ends-pure, Ends-leave,
  Ends-refuse_if, first, ◌==◌, ◌&&◌,
}
use ticket_booking.Db.{Db, Order, pending, cancelled, delete_items, set_status, expire_overdue}
use ticket_booking.Db.Rows.{status_of, is_open}
use ticket_booking.Db.Consistent.{IsConsistent}
use ticket_booking.Db.Consistent.Delete.{expire-IsConsistent}
use ticket_booking.Holds.{order_keys}
use ticket_booking.Holds.Keys.{db-drop_keys}
use ticket_booking.World.{
  World, Env, Uuids, Response, write_err, order_cancelled, commit, lock_order, expire, failed,
  reply, or_answer, transaction,
}
use ticket_booking.World.Outcomes.{Ends-transaction}
use ticket_booking.Payment.{db_error}
use ticket_booking.Payment.Answer.{first-status_of}
use ticket_booking.Cancel.{
  lock, cancel_rows, cancel_commit, cancel_checked, cancel_order, expire_overdue_orders,
}

module _ (u : Uuids) (env : Env) (user : String) (order_id : String) where
  abbrev o : ℕ
  o = u.value order_id

  abbrev own : Db → Option Order
  own db = first (λ x. x.id == o && x.user_id == u.value user) db.orders

  -- The user's own pending order becomes CANCELLED and loses its items; nothing else changes.
  pub record Cancelled (db db' : Db) : Type 0 where
    pub order : Order
    pub found : own db ≡ some order
    pub waiting : order.status ≡ pending
    pub effect : db' ≡ set_status cancelled o (delete_items o db)

  abbrev Refusal : World → Response → World → Type 0
  Refusal w resp w' = (resp.status ≢ 200) × (w'.db ≡ w.db)

  lock-Ends :
      (w : World)
      → Ends
          (λ (resp : Response) _. resp.status ≢ 200)
          (λ r w'. (own w.db ≡ some r) × (w' ≡ w))
          (lock u env user order_id w)
  lock-Ends w =
      if_cases (Ends _ _) (failed (env.fault lock_order)) _ _ (λ _. Ends-leave (omega arith))
        (λ _. go (own w.db) refl)
    where
      go :
          (r : Option Order)
          → own w.db ≡ r
          → Ends
              (λ (resp : Response) _. resp.status ≢ 200)
              (λ r w'. (own w.db ≡ some r) × (w' ≡ w))
              (or_answer r (write_err 404 "order_not_found") w)
      go none e = Ends-leave (omega arith)
      go (some r) e = Ends-pure (e, refl)

  cancel_rows-Ends :
      (w : World)
      → Ends
          (λ resp _. resp.status ≢ 200)
          (λ ks w'. (ks ≡ order_keys u o w.db) × Cancelled w.db w'.db)
          (cancel_rows u env user order_id w)
  unfolding cancel_rows
  cancel_rows-Ends w = Ends-bind _ _ _ (lock-Ends w) λ r w₁ (e₁, s₁).
      Ends-bind _ _ _ (Ends-refuse_if _ _ w₁ (λ _. omega arith)) λ _ w₂ (e₂, s₂).
        Ends-bind _ _ _ (Ends-refuse_if _ _ w₂ (λ _. omega arith)) λ _ w₃ (e₃, s₃).
          rw (s₃, s₂, s₁)
            (Ends-bind _ _ w (read_keys w) λ ks w₄ (e₄, s₄).
              Ends-bind _ _ _ (Ends-refuse_if _ _ w₄ (λ _. omega arith)) λ _ w₅ (e₅, s₅).
                Ends-bind _ _ w₅ (write (delete_items o) w₅) λ _ w₆ e₆.
                  Ends-bind _ _ _ (Ends-refuse_if _ _ w₆ (λ _. omega arith)) λ _ w₇ (e₇, s₇).
                    Ends-bind _ _ w₇ (write (set_status cancelled o) w₇) λ _ w₈ e₈. Ends-pure (
                      e₄,
                      record {
                        order = r;
                        found = e₁;
                        waiting = ground (arith, e₂);
                        effect = rw (e₈, s₇, e₆, s₅, s₄) refl;
                      },
                    ))
    where
      read_keys :
          (w : World)
          → Ends
              (λ (resp : Response) _. resp.status ≢ 200)
              (λ ks w'. (ks ≡ order_keys u o w.db) × (w' ≡ w))
              (next (order_keys u o w.db), w)
      read_keys w = Ends-pure (refl, refl)

      write :
          (f : Db → Db) (w : World)
          → Ends {A = Unit {0}}
              (λ (resp : Response) _. resp.status ≢ 200)
              (λ _ w'. w'.db ≡ f w.db)
              (next tt, record w { db = f w.db })
      write f w = Ends-pure refl

  -- The order is cancelled whole, under 200 unless the reply to the COMMIT was lost; or the tables
  -- are as they were, under another answer.
  abbrev pub Dropped : World → Response × World → Type 0
  Dropped w (resp, w') =
      ((resp.status ≢ 200) × (w'.db ≡ w.db))
      ⊎ (Cancelled w.db w'.db
          × ((resp ≡ record { status = 200; body = order_cancelled order_id })
              ⊎ ((env.fault commit ≡ reply_lost) × (resp.status ≢ 200))))

  abbrev pub Left : World → Response → World → Type 0
  Left w resp w' =
      (resp.status ≢ 200)
      × ((w'.db ≡ w.db) ⊎ (Cancelled w.db w'.db × (env.fault commit ≡ reply_lost)))

  cancel_tx_Ends :
      (w : World)
      → Ends
          (Left w)
          (λ ks w'. Cancelled w.db w'.db)
          (transaction
            (env.fault commit)
            (λ x. (leave db_error, x))
            (cancel_rows u env user order_id)
            w)
  cancel_tx_Ends w =
      Ends-transaction (env.fault commit) (λ x. (leave db_error, x))
        (cancel_rows u env user order_id) w (cancel_rows-Ends w) (λ resp w' h. (h, inl refl))
        (λ a w' (e, c). c) (λ a w' h. Ends-leave (omega arith, inl refl))
        (λ a w' (e, c) q. Ends-leave (omega arith, inr (c, q)))

  abbrev Went : World → Response → World → Type 0
  Went w r w' =
      Cancelled w.db w'.db × (r ≡ record { status = 200; body = order_cancelled order_id })

  pub cancel_commit-Ends :
      (w : World)
      → Ends (Left w) (λ ks w'. Cancelled w.db w'.db) (cancel_commit u env user order_id w)
  cancel_commit-Ends w =
      Ends-bind _ _ _ (Ends-refuse_if _ _ w (λ _. (omega arith, inl refl))) λ _ w₁ (e₁, s₁).
        Ends-bind _ _ _
          (Ends-refuse_if _ _ w₁ (λ _. (omega arith, inl (ap (λ (x : World). x.db) s₁))))
          λ _ w₂ (e₂, s₂). rw (s₂, s₁) (cancel_tx_Ends w)

  cancel_checked-Ends : (w : World) → Ends (Left w) (Went w) (cancel_checked u env user order_id w)
  cancel_checked-Ends w =
      Ends-bind _ _ _ (cancel_commit-Ends w) λ ks w₁ c. Ends-pure (rw db-drop_keys c, refl)

  -- Whatever calls fail, `cancelOrder` ends in one of two ways. Either the answer is not 200 and the
  -- tables are as they were. Or the caller's own pending order becomes CANCELLED and loses exactly its
  -- items; then the answer is 200, unless the reply to the COMMIT was lost.
  pub cancel_order_effect : (w : World) → Dropped w (cancel_order u env user order_id w)
  unfolding cancel_order
  cancel_order_effect w = go (cancel_checked u env user order_id w) (cancel_checked-Ends w).holds
    where
      go : (r : Exit Response Response × World) → EndsBy (Left w) (Went w) r → Dropped w (reply r)
      go (next r, w') (c, e) = inr (c, inl e)
      go (leave r, w') (n, inl same) = inl (n, same)
      go (leave r, w') (n, inr (c, q)) = inr (c, inr (q, n))

  pub Cancelled-is_open :
      (db db' : Db) → Cancelled db db' → IsConsistent db → is_open (status_of o db.orders) ≡ true
  Cancelled-is_open db db' c v =
      ground (
        arith,
        first-status_of o (u.value user) db.orders c.order v.orders_differ c.found,
        c.waiting,
      )

pub expire_overdue_orders_effect :
    (env : Env) (w : World)
    → ((expire_overdue_orders env w).1.db ≡ w.db)
      ⊎ ((expire_overdue_orders env w).1.db ≡ (expire_overdue (env.clock expire) w.db).1)
unfolding expire_overdue_orders
expire_overdue_orders_effect env w = go (env.fault expire)
  where
    after : Fault → World
    after f =
        (elim f as (λ _. Option ℕ × World) [
          | fine ↦ (
            some (expire_overdue (env.clock expire) w.db).0,
            record w { db = (expire_overdue (env.clock expire) w.db).1 },
          )
          | refused ↦ (none, w)
          | reply_lost ↦ (none, record w { db = (expire_overdue (env.clock expire) w.db).1 })
        ]).1

    go :
        (f : Fault)
        → ((after f).db ≡ w.db) ⊎ ((after f).db ≡ (expire_overdue (env.clock expire) w.db).1)
    go fine = inr refl
    go refused = inl refl
    go reply_lost = inr refl

-- Whether its statement goes through, fails or loses its reply, `expireOverdueOrders` keeps consistent
-- tables consistent.
pub expire_overdue_orders-IsConsistent :
    (env : Env) (w : World) → IsConsistent w.db → IsConsistent (expire_overdue_orders env w).1.db
expire_overdue_orders-IsConsistent env w v = elim (expire_overdue_orders_effect env w) [
  | inl same ↦ rw same v
  | inr e ↦ rw e (expire-IsConsistent _ w.db v)
]
