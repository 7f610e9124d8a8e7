-- ===== src/Payment.antt =====
-- `payOrder` of api/handlers.go.
pub mod Effect
pub mod Answer
pub mod Progress
pub mod Replay
pub mod Tests
use ticket_booking.Base.{
  ℕ, String, Bool, true, false, ◌&&◌, ◌||◌, not, Option, none, some, ltb, ◌==◌, str_eq,
  if◌then◌else◌, length, first, select, is_uuid, Exec, Exit, next, leave, pure, answer, ◌>>=◌, ◌>>◌,
  refuse_if,
}
use ticket_booking.Db.{
  Db, Order, OrderStatus, is_paid, is_pending, Payment, Written, rows, violation, of_order,
  sum_price, find_order, confirm_seats, insert_payment, set_status, paid,
}
use ticket_booking.Holds.{clear_holds_for_order}
use ticket_booking.World.{
  World, Env, Uuids, Response, write_err, replayed, already_paid, charged, begin_tx, find_payment,
  lock_order, count_items, confirm, sum_items, add_payment, set_paid, commit, failed, or_answer,
  transaction, reply,
}

abbrev pub db_error : Response
db_error = write_err 500 "db_error"

module _ (u : Uuids) (env : Env) (user : String) (order_id key : String) where
  abbrev pub oid : ℕ
  oid = u.value order_id

  -- SELECT status FROM payments WHERE idempotency_key = $1 AND order_id = $2
  pub find_replay : Db → Option Payment
  find_replay db = first (λ p. str_eq p.idempotency_key key && p.order_id == oid) db.payments

  abbrev pub replay : Option Payment → Exec World Response (Unit {0})
  replay none w = (next tt, w)
  replay (some p) w = (leave (record { status = 200; body = replayed order_id p.status }), w)

  -- SELECT status, expires_at FROM orders WHERE id = $1 AND user_id = $2 FOR UPDATE
  unfoldable pub own_order : Db → Option Order
  own_order db = first (λ o. o.id == oid && o.user_id == u.value user) db.orders

  pub payable : Order → Exec World Response (Unit {0})
  payable o = do
    refuse_if (is_paid o.status) (record { status = 200; body = already_paid order_id })
    refuse_if (not (is_pending o.status) || ltb o.expires_at (env.clock lock_order))
        (write_err 410 "order_expired")

  -- The optimistic confirm, and its row count.
  pub confirm_all : Exec World Response (Unit {0})
  confirm_all w =
      let count = length (select (of_order oid) w.db.items) in
      let (n, db) = confirm_seats oid w.db in
      if failed (env.fault count_items) || count == 0
      then (leave db_error, w)
      else if failed (env.fault confirm) || not (n == count)
      then (leave (write_err 409 "seat_no_longer_available"), w)
      else (next tt, record w { db = db })

  -- The sum's error is ignored, but it aborts the transaction, so the next statement fails.
  pub charge : Exec World Response ℕ
  charge w =
      let lost = failed (env.fault sum_items) in
      let amount = if lost then 0 else sum_price (select (of_order oid) w.db.items) in
      if lost || failed (env.fault add_payment)
      then (leave (write_err 409 "duplicate_payment"), w)
      else elim (insert_payment oid key amount w.db) [
        | rows _ db ↦ (next amount, record w { db = db })
        | violation ↦ (leave (write_err 409 "duplicate_payment"), w)
      ]

  pub mark_paid : Exec World Response (Unit {0})
  mark_paid w =
      if failed (env.fault set_paid)
      then (leave db_error, w)
      else (next tt, record w { db = set_status paid oid w.db })

  abbrev pub lookup_replay : Exec World Response (Unit {0})
  lookup_replay w =
      if failed (env.fault find_payment) then (leave db_error, w) else replay (find_replay w.db) w

  abbrev pub lock : Exec World Response Order
  lock w =
      if failed (env.fault lock_order)
      then (leave db_error, w)
      else or_answer (own_order w.db) (write_err 404 "order_not_found") w

  pub pay_rows : Exec World Response ℕ
  unfolding payable confirm_all charge mark_paid
  pay_rows = do
    lookup_replay
    o ← lock
    payable o
    confirm_all
    amount ← charge
    mark_paid
    pure amount

  -- Up to the COMMIT.
  abbrev pub pay_commit : Exec World Response ℕ
  pay_commit = do
    refuse_if (not (is_uuid order_id)) (write_err 400 "bad_order_id")
    refuse_if (str_eq key "") (write_err 400 "idempotency_key_required")
    refuse_if (failed (env.fault begin_tx)) db_error
    transaction (env.fault commit) (answer db_error) pay_rows

  -- And after it.
  abbrev pub pay_settle : ℕ → World → Response × World
  pay_settle amount w =
      (record { status = 200; body = charged order_id amount }, clear_holds_for_order u env oid w)

  abbrev pub pay_checked : Exec World Response Response
  pay_checked = do amount ← pay_commit; λ w. let (r, w') = pay_settle amount w in (next r, w')

  unfoldable pub pay_order : World → Response × World
  pay_order w = reply (pay_checked w)
