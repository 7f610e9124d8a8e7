-- ===== src/Cancel.antt =====
-- `cancelOrder` of api/handlers.go, and `expireOverdueOrders` of api/main.go.
pub mod Effect
pub mod Tests
use ticket_booking.Base.{
  ℕ, String, Bool, true, false, ◌&&◌, ◌||◌, not, Option, none, some, ◌==◌, List, if◌then◌else◌,
  first, is_uuid, Exec, Exit, next, leave, pure, answer, ◌>>=◌, ◌>>◌, refuse_if, fine, refused,
  reply_lost,
}
use ticket_booking.Db.{Db, Order, is_pending, delete_items, set_status, cancelled, expire_overdue}
use ticket_booking.Holds.{order_keys, drop_keys}
use ticket_booking.World.{
  World, Env, Uuids, Response, write_err, order_cancelled, begin_tx, lock_order, list_keys,
  drop_items, set_cancelled, expire, commit, failed, or_answer, transaction, reply,
}
use ticket_booking.Payment.{db_error}

module _ (u : Uuids) (env : Env) (user : String) (order_id : String) where
  abbrev pub oid : ℕ
  oid = u.value order_id

  abbrev pub lock : Exec World Response Order
  lock w =
      if failed (env.fault lock_order)
      then (leave db_error, w)
      else or_answer (first (λ o. o.id == oid && o.user_id == u.value user) w.db.orders)
          (write_err 404 "order_not_found") w

  -- The keys are collected before the items that lead to them are deleted.
  pub cancel_rows : Exec World Response (List String)
  cancel_rows = do
    o ← lock
    refuse_if (not (is_pending o.status)) (write_err 409 "not_cancellable")
    refuse_if (failed (env.fault list_keys)) db_error
    keys ← λ w. (next (order_keys u oid w.db), w)
    refuse_if (failed (env.fault drop_items)) db_error
    λ w. (next tt, record w { db = delete_items oid w.db })
    refuse_if (failed (env.fault set_cancelled)) db_error
    λ w. (next tt, record w { db = set_status cancelled oid w.db })
    pure keys

  -- Up to the COMMIT.
  abbrev pub cancel_commit : Exec World Response (List String)
  cancel_commit = do
    refuse_if (not (is_uuid order_id)) (write_err 400 "bad_order_id")
    refuse_if (failed (env.fault begin_tx)) db_error
    transaction (env.fault commit) (answer db_error) cancel_rows

  -- And after it.
  abbrev pub cancel_settle : List String → World → Response × World
  cancel_settle keys w =
      (record { status = 200; body = order_cancelled order_id }, drop_keys env keys w)

  abbrev pub cancel_checked : Exec World Response Response
  cancel_checked = do keys ← cancel_commit; λ w. let (r, w') = cancel_settle keys w in (next r, w')

  unfoldable pub cancel_order : World → Response × World
  cancel_order w = reply (cancel_checked w)

-- The number of seats released, or `none` for the error.
unfoldable pub expire_overdue_orders : Env → World → Option ℕ × World
expire_overdue_orders env w =
    let (n, db) = expire_overdue (env.clock expire) w.db in
    elim (env.fault expire) [
      | fine ↦ (some n, record w { db = db })
      | refused ↦ (none, w)
      | reply_lost ↦ (none, record w { db = db })
    ]
