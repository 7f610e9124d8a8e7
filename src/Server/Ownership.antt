-- ===== src/Server/Ownership.antt =====
-- What is paid stays paid: a seat of a paid order is that order's for ever.
use ticket_booking.Base.{ℕ, inl, inr}
use ticket_booking.Db.{Db}
use ticket_booking.Db.Consistent.{IsConsistent}
use ticket_booking.Db.Ownership.{
  IsOwner, with_booking-IsOwner, with_payment-IsOwner, cancel-IsOwner, expire-IsOwner,
}
use ticket_booking.World.{World}
use ticket_booking.Cancel.Effect.{Cancelled-is_open, expire_overdue_orders_effect}
use ticket_booking.Accounts.Kept.{OnlyUsers}
use ticket_booking.Server.{Http, Setup, Meets, Service}
use ticket_booking.Server.Effect.{
  Effect, stays, joins, books, pays, cancels, creates, patches, serve-Effect,
}
use ticket_booking.Server.Safety.{boots-OnlyUsers, Reach-IsConsistent}
use ticket_booking.Server.Live.{
  Step, requests, ticks, boots, redis_changes, log_drains, Reach, here, after,
}

module _ (x : Setup) (o s : ℕ) where
  OnlyUsers-IsOwner : (db db' : Db) → IsOwner o s db → OnlyUsers db db' → IsOwner o s db'
  OnlyUsers-IsOwner db db' h (users, e) =
      rw e (record { is_paid = h.is_paid; has_seat = h.has_seat })

  Effect-IsOwner :
      (m : Meets) (r : Http) (w : World) (db' : Db)
      → IsConsistent w.db
      → IsOwner o s w.db
      → Effect x m r w db'
      → IsOwner o s db'
  Effect-IsOwner m r w db' v h (stays same) = rw same h
  Effect-IsOwner m r w db' v h (joins e) = OnlyUsers-IsOwner w.db db' h e
  Effect-IsOwner m r w db' v h (books user b g c a p) =
      rw p.effect (with_booking-IsOwner o s w.db h _ _ _ _ _ p.new_id)
  Effect-IsOwner m r w db' v h (pays user id g c) =
      rw c.effect (with_payment-IsOwner o s w.db h _ _ _)
  Effect-IsOwner m r w db' v h (cancels user id g c) =
      rw c.effect
        (cancel-IsOwner o s w.db h _ (Cancelled-is_open x.uuids m.env user id w.db db' c v))
  Effect-IsOwner m r w db' v h (creates user g made) =
      rw made.created.effect (record { is_paid = h.is_paid; has_seat = h.has_seat })
  Effect-IsOwner m r w db' v h (patches user id c g e) =
      rw e (record { is_paid = h.is_paid; has_seat = h.has_seat })

  Step-IsOwner :
      {v v' : Service}
      → IsConsistent v.world.db
      → IsOwner o s v.world.db
      → Step x v v'
      → IsOwner o s v'.world.db
  Step-IsOwner {v} c h (requests m r e) =
      rw e (Effect-IsOwner m r v.world _ c h (serve-Effect x m r v))
  Step-IsOwner {v} c h (ticks env e) = rw e (elim (expire_overdue_orders_effect env v.world) [
    | inl same ↦ rw same h
    | inr gone ↦ rw gone (expire-IsOwner o s v.world.db h _ c)
  ])
  Step-IsOwner {v} c h (boots k email password e) =
      rw e (OnlyUsers-IsOwner v.world.db _ h (boots-OnlyUsers x k email password v.world))
  Step-IsOwner c h (redis_changes r b e) = rw e h
  Step-IsOwner c h (log_drains rest e) = rw e h

  -- From consistent tables in which a paid order has a seat, after any sequence of HTTP requests of
  -- any clients, ticks of the worker, failures of calls and changes of Redis, the order is still paid
  -- and still has the seat.
  pub paid_seat_kept :
      {v v' : Service}
      → IsConsistent v.world.db
      → IsOwner o s v.world.db
      → Reach x v v'
      → IsOwner o s v'.world.db
  paid_seat_kept c h here = h
  paid_seat_kept c h (after r st) =
      Step-IsOwner (Reach-IsConsistent x c r) (paid_seat_kept c h r) st
