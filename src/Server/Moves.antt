-- ===== src/Server/Moves.antt =====
-- A request over HTTP is a move of the specification of Spec.
use ticket_booking.Base.{refl, List}
use ticket_booking.Db.{Db, User, Event}
use ticket_booking.Db.Consistent.{IsConsistent}
use ticket_booking.Spec.{stays}
use ticket_booking.Spec.Allowed.{
  IsAllowed, same-IsAllowed, Placed-IsAllowed, Charged-IsAllowed, Cancelled-IsAllowed,
}
use ticket_booking.World.{World}
use ticket_booking.Admin.Consistent.{Created-IsAllowed}
use ticket_booking.Server.{Http, Setup, Meets}
use ticket_booking.Server.Effect.{
  Effect, stays as leaves, joins, books, pays, cancels, creates, patches,
}

-- The tables of users and events play no part.
pub others-IsAllowed :
    (db : Db) (users : List User) (events : List Event)
    → IsConsistent db
    → IsAllowed db (record db { users = users; events = events })
others-IsAllowed db users events v = record {
  consistent = record {
    orders_differ = v.orders_differ;
    seats_differ = v.seats_differ;
    one_item = v.one_item;
    items_seated = v.items_seated;
    items_active = v.items_active;
    sold_is_paid = v.sold_is_paid;
    payments_paid = v.payments_paid;
    one_payment = v.one_payment;
    paid_is_charged = v.paid_is_charged;
    amounts = v.amounts;
  };
  move = stays refl;
}

module _ (x : Setup) (m : Meets) (r : Http) where
  pub Effect-IsAllowed :
      (w : World) (db' : Db) → IsConsistent w.db → Effect x m r w db' → IsAllowed w.db db'
  Effect-IsAllowed w db' v (leaves same) = same-IsAllowed v same
  Effect-IsAllowed w db' v (joins (users, e)) = rw e (others-IsAllowed w.db users w.db.events v)
  Effect-IsAllowed w db' v (books user b g c a p) =
      Placed-IsAllowed x.uuids m.env user w.db db' v x.app b p
  Effect-IsAllowed w db' v (pays user id g c) =
      Charged-IsAllowed x.uuids m.env user w.db db' v id r.idempotency_key c
  Effect-IsAllowed w db' v (cancels user id g c) =
      Cancelled-IsAllowed x.uuids m.env user w.db db' v id c
  Effect-IsAllowed w db' v (creates user g made) =
      Created-IsAllowed x.uuids x.parse_time m.env w v m.draws made.asked made.plan db' made.created
  Effect-IsAllowed w db' v (patches user id c g e) = rw e (others-IsAllowed w.db w.db.users _ v)
