-- ===== src/Server/Safety.antt =====
-- The deployed service keeps what Spec promises, and its tables consistent.
use ticket_booking.Base.{at_most_one, ℕ, ◌≤◌, ◌≡◌, refl, String, ◌==◌, length, select, All}
use ticket_booking.Db.{Db, is_sold}
use ticket_booking.Db.Consistent.{IsConsistent, item_seat, paid_order}
use ticket_booking.Db.Rows.{paid_for}
use ticket_booking.Spec.{Move, view}
use ticket_booking.Spec.Allowed.{IsAllowed, same-IsAllowed, expired-IsAllowed}
use ticket_booking.World.{World}
use ticket_booking.Accounts.{Visit}
use ticket_booking.Accounts.Kept.{OnlyUsers, ensure_admin-OnlyUsers}
use ticket_booking.Server.{Setup, Service}
use ticket_booking.Server.Effect.{serve-Effect}
use ticket_booking.Server.Moves.{others-IsAllowed, Effect-IsAllowed}
use ticket_booking.Server.Live.{
  Step, requests, ticks, boots, redis_changes, log_drains, Reach, here, after, admin_try,
}

module _ (x : Setup) where
  pub boots-OnlyUsers :
      (c : Visit) (email password : String) (w : World)
      → OnlyUsers w.db (admin_try x c email password w).db
  boots-OnlyUsers c email password w =
      ensure_admin-OnlyUsers x.uuids x.bcrypt x.to_lower x.digest x.difficulty x.sign x.tokens c
        email password w

  OnlyUsers-IsAllowed : (db db' : Db) → IsConsistent db → OnlyUsers db db' → IsAllowed db db'
  OnlyUsers-IsAllowed db db' h (users, e) = rw e (others-IsAllowed db users db.events h)

  Step-IsAllowed :
      {v v' : Service} → IsConsistent v.world.db → Step x v v' → IsAllowed v.world.db v'.world.db
  Step-IsAllowed {v} h (requests m r e) =
      rw e (Effect-IsAllowed x m r v.world _ h (serve-Effect x m r v))
  Step-IsAllowed {v} h (ticks env e) = rw e (expired-IsAllowed env v.world h)
  Step-IsAllowed {v} h (boots c email password e) =
      rw e (OnlyUsers-IsAllowed v.world.db _ h (boots-OnlyUsers c email password v.world))
  Step-IsAllowed h (redis_changes r s e) = rw e (same-IsAllowed h refl)
  Step-IsAllowed h (log_drains rest e) = rw e (same-IsAllowed h refl)

  -- From consistent tables, each step of the deployed service, any HTTP request among them, whatever it
  -- brings and whichever calls fail, leaves them consistent and is one move of the specification or
  -- leaves its state alone: a new order takes seats that are all free; an order pays and what it held is
  -- sold to it; unpaid orders give up what they held; and nothing else changes hands.
  pub live_moves :
      {v v' : Service}
      → IsConsistent v.world.db
      → Step x v v'
      → IsConsistent v'.world.db × Move (view v.world.db) (view v'.world.db)
  live_moves h st = let a = Step-IsAllowed h st in (a.consistent, a.move)

  pub Reach-IsConsistent :
      {v v' : Service} → IsConsistent v.world.db → Reach x v v' → IsConsistent v'.world.db
  Reach-IsConsistent h here = h
  Reach-IsConsistent h (after r s) = (Step-IsAllowed (Reach-IsConsistent h r) s).consistent

-- From consistent tables, after any sequence of HTTP requests of any clients, ticks of the worker,
-- attempts to make an administrator, failures of calls and changes of Redis, a seat is in at most one
-- order, it is SOLD exactly if a paid order has it, and an order has at most one payment.
pub live_no_oversell :
    (x : Setup) {v v' : Service}
    → IsConsistent v.world.db
    → Reach x v v'
    → let db = v'.world.db in
      ((s : ℕ) → length (select (λ i. i.seat_id == s) db.items) ≤ 1)
      × All (λ s. is_sold s.status ≡ paid_for db.orders db.items s.id) db.seats
      × ((o : ℕ) → length (select (λ p. p.order_id == o) db.payments) ≤ 1)
live_no_oversell x {v} {v'} h r =
    let h' = Reach-IsConsistent x h r in
    (
      λ s. at_most_one item_seat s v'.world.db.items h'.one_item,
      h'.sold_is_paid,
      λ o. at_most_one paid_order o v'.world.db.payments h'.one_payment,
    )
