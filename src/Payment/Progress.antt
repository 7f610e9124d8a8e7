-- ===== src/Payment/Progress.antt =====
-- A payment that has everything it needs goes through.
use ticket_booking.Base.{
  ℕ, ◌≤◌, ◌<◌, String, ◌≡◌, refl, true, false, ◌&&◌, not, none, some, List, [], ◌∷◌, arith, ltb,
  ◌==◌, str_eq, any, length, select, first, is_uuid, fine, ◌∙◌, Ends, EndsBy, Ends-bind, Ends-pure,
  Ends-imp, Ends-refuse_if, if_cases, Exit, next, leave,
}
use ticket_booking.Db.{
  Db, Order, Payment, pending, of_order, sum_price, confirm_seats, insert_payment,
}
use ticket_booking.Db.Consistent.{IsConsistent}
use ticket_booking.Db.Consistent.Pay.{confirm_finds_all}
use ticket_booking.World.{
  World, Env, Uuids, Response, charged, Site, lock_order, calm, transaction, reply,
}
use ticket_booking.World.Outcomes.{Ends-commit}
use ticket_booking.Payment.{
  find_replay, own_order, payable, confirm_all, charge, mark_paid, pay_rows, pay_commit,
  pay_checked, pay_order, replay, lock, db_error,
}
use ticket_booking.Payment.Answer.{first-status_of}

no_replay :
    (key : String) (o : ℕ) (ps : List Payment)
    → any (λ p. str_eq p.idempotency_key key) ps ≡ false
    → first (λ p. str_eq p.idempotency_key key && p.order_id == o) ps ≡ none
no_replay key o [] h = refl
no_replay key o (p ∷ ps) h = ground (arith, no_replay key o ps)

-- The handler does not leave.
abbrev Never : Response → World → Type 0
Never resp w = ⊥

module _ (u : Uuids) (clock : Site → ℕ) (fresh : ℕ) (user order key : String) where
  abbrev o : ℕ
  o = u.value order

  abbrev env : Env
  env = calm clock fresh

  abbrev pub total : Db → ℕ
  total db = sum_price (select (of_order (u.value order)) db.items)

  payable-progress :
      (r : Order) (w : World)
      → r.status ≡ pending
      → clock lock_order ≤ r.expires_at
      → Ends Never (λ _ w'. w' ≡ w) (payable u env user order key r w)
  unfolding payable
  payable-progress r w p t =
      Ends-bind _ _ _ (Ends-refuse_if _ _ w (λ e. ground (arith, e, p))) λ _ w₁ (e₁, s₁).
        Ends-imp _ (λ _ _ h. h) (λ _ w' (e₂, s₂). s₂ ∙ s₁)
          (Ends-refuse_if _ _ w₁ (λ e. ground (arith, e, p, t)))

  confirm_all-progress :
      (w : World)
      → 0 < length (select (of_order o) w.db.items)
      → (confirm_seats o w.db).0 ≡ length (select (of_order o) w.db.items)
      → Ends Never (λ _ w'. w'.db ≡ (confirm_seats o w.db).1) (confirm_all u env user order key w)
  unfolding confirm_all
  confirm_all-progress w n e =
      if_cases (Ends _ _) (length (select (of_order o) w.db.items) == 0) _ _
        (λ h. ground (arith, h, n))
        (λ _.
          if_cases (Ends _ _)
            (not ((confirm_seats o w.db).0 == length (select (of_order o) w.db.items))) _ _
            (λ h. ground (arith, h, e)) (λ _. Ends-pure refl))

  charge-progress :
      (w : World)
      → any (λ p. str_eq p.idempotency_key key) w.db.payments ≡ false
      → ltb (total w.db) 10000000000 ≡ true
      → Ends Never (λ a _. a ≡ total w.db) (charge u env user order key w)
  unfolding charge insert_payment
  charge-progress w f s = rw (f, s) (Ends-pure refl)

  confirm-keeps :
      (db : Db)
      → ((confirm_seats o db).1.items ≡ db.items) × ((confirm_seats o db).1.payments ≡ db.payments)
  unfolding confirm_seats
  confirm-keeps db = (refl, refl)

  pay_rows-progress :
      (w : World) (r : Order)
      → IsConsistent w.db
      → any (λ p. str_eq p.idempotency_key key) w.db.payments ≡ false
      → own_order u env user order key w.db ≡ some r
      → r.status ≡ pending
      → clock lock_order ≤ r.expires_at
      → 0 < length (select (of_order o) w.db.items)
      → ltb (total w.db) 10000000000 ≡ true
      → Ends Never (λ a _. a ≡ total w.db) (pay_rows u env user order key w)
  unfolding pay_rows find_replay own_order mark_paid
  pay_rows-progress w r v f own p t n small = Ends-bind _ _ _ looked λ _ w₁ s₁.
      Ends-bind _ _ _ (locked w₁ s₁) λ r' w₂ (same, s₂).
        Ends-bind _ _ _ (payable-progress r' w₂ (rw same p) (rw same t)) λ _ w₃ s₃.
          rw (s₃, s₂, s₁)
            (Ends-bind _ _ _ (confirm_all-progress w n confirmed) λ _ w₄ d₄.
              let (i, q) = confirm-keeps w.db in
              Ends-bind _ _ _ (charge-progress w₄ (rw (d₄, q) f) (rw (d₄, i) small))
                λ a w₅ e₅. Ends-bind _ _ w₅ (marked w₅) λ _ w₆ _. Ends-pure (e₅ ∙ rw (d₄, i) refl))
    where
      marked :
          (w : World)
          → Ends {A = Unit {0}} Never (λ _ _. Unit {0}) (mark_paid u env user order key w)
      marked w = Ends-pure tt

      looked :
          Ends Never
            (λ _ w'. w' ≡ w)
            (replay u env user order key (find_replay u env user order key w.db) w)
      looked = rw (no_replay key o w.db.payments f) (Ends-pure refl)

      locked :
          (w₁ : World)
          → w₁ ≡ w
          → Ends Never (λ r' w₂. (r' ≡ r) × (w₂ ≡ w₁)) (lock u env user order key w₁)
      locked w₁ s = rw (s, own) (Ends-pure (refl, refl))

      confirmed : (confirm_seats o w.db).0 ≡ length (select (of_order o) w.db.items)
      confirmed =
          confirm_finds_all o w.db v
            (rw (first-status_of o (u.value user) w.db.orders r v.orders_differ own, p) refl)

  -- A payment none of whose calls fails, of the caller's own pending order, in time and with items
  -- that come to less than 100,000,000.00, under a key that no payment has, is answered with the charge
  -- of their sum: in consistent tables nothing else can stop it.
  pub pay_order-progress :
      (w : World) (r : Order)
      → IsConsistent w.db
      → is_uuid order ≡ true
      → str_eq key "" ≡ false
      → any (λ p. str_eq p.idempotency_key key) w.db.payments ≡ false
      → own_order u env user order key w.db ≡ some r
      → r.status ≡ pending
      → clock lock_order ≤ r.expires_at
      → 0 < length (select (of_order o) w.db.items)
      → total w.db < 10000000000
      → (pay_order u env user order key w).0
        ≡ record { status = 200; body = charged order (total w.db) }
  unfolding pay_order
  pay_order-progress w r v id k f own p t n small =
      go (pay_checked u env user order key w) checked.holds
    where
      committed :
          Ends Never
            (λ a _. a ≡ total w.db)
            (transaction fine (λ x. (leave db_error, x)) (pay_rows u env user order key) w)
      committed =
          Ends-commit (λ x. (leave db_error, x)) (pay_rows u env user order key) w
            (pay_rows-progress w r v f own p t n (ground (arith, small)))

      ready : Ends Never (λ a _. a ≡ total w.db) (pay_commit u env user order key w)
      ready = Ends-bind _ _ _ (Ends-refuse_if _ _ w (λ e. ground (arith, e, id))) λ _ w₁ (_, s₁).
          Ends-bind _ _ _ (Ends-refuse_if _ _ w₁ (λ e. cc)) λ _ w₂ (_, s₂).
            Ends-bind _ _ _ (Ends-refuse_if false db_error w₂ (λ e. cc))
              λ _ w₃ (_, s₃). rw (s₃, s₂, s₁) committed

      checked :
          Ends Never
            (λ resp _. resp ≡ record { status = 200; body = charged order (total w.db) })
            (pay_checked u env user order key w)
      checked = Ends-bind _ _ _ ready λ a w₄ e. Ends-pure (rw e refl)

      go :
          (x : Exit Response Response × World)
          → EndsBy Never
              (λ resp _. resp ≡ record { status = 200; body = charged order (total w.db) })
              x
          → (reply x).0 ≡ record { status = 200; body = charged order (total w.db) }
      go (next resp, w') e = e
      go (leave resp, w') e = absurd e
