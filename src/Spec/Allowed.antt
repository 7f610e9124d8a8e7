-- ===== src/Spec/Allowed.antt =====
-- The changes of the tables that the handlers make, each consistent and a move of the specification.
use ticket_booking.Base.{String, ◌≡◌, refl, ap, ◌∙◌, sym, map, length-map, ◌==◌, inl, inr}
use ticket_booking.Db.{Db}
use ticket_booking.Db.Consistent.{IsConsistent}
use ticket_booking.Db.Consistent.Insert.{with_booking-IsConsistent}
use ticket_booking.Db.Consistent.Pay.{with_payment-IsConsistent}
use ticket_booking.Db.Consistent.Delete.{cancel-IsConsistent, expire-IsConsistent}
use ticket_booking.Spec.{Move, stays, sells, frees, view}
use ticket_booking.Spec.Moves.{booking-Move, payment-view, cancel-view, expire-Move}
use ticket_booking.World.{World, App, Env, Uuids}
use ticket_booking.Booking.{Request}
use ticket_booking.Booking.Effect.{Placed, expires_at}
use ticket_booking.Payment.Effect.{Charged}
use ticket_booking.Payment.Answer.{Charged-is_open}
use ticket_booking.Cancel.{expire_overdue_orders}
use ticket_booking.Cancel.Effect.{Cancelled, Cancelled-is_open, expire_overdue_orders_effect}

pub record IsAllowed (db db' : Db) : Type 0 where
  pub consistent : IsConsistent db'
  pub move : Move (view db) (view db')

pub same-IsAllowed : {db db' : Db} → IsConsistent db → db' ≡ db → IsAllowed db db'
same-IsAllowed v e = record { consistent = rw e v; move = stays (ap view e) }

module _ (u : Uuids) (env : Env) (user : String) (db db' : Db) (v : IsConsistent db) where
  pub Placed-IsAllowed :
      (app : App) (b : Request) → Placed u app env user b db db' → IsAllowed db db'
  Placed-IsAllowed app b p = rw p.effect (record {
    consistent =
        with_booking-IsConsistent db env.fresh (u.value user) (expires_at u app env user b)
          (u.value b.event_id) (map u.value b.seat_ids) v p.new_id p.untaken;
    move =
        booking-Move db v env.fresh (u.value user) (expires_at u app env user b)
          (u.value b.event_id) (map u.value b.seat_ids) p.new_id p.untaken
          (p.all_seats ∙ sym (length-map u.value b.seat_ids));
  })

  pub Charged-IsAllowed :
      (order key : String) → Charged u env user order key db db' → IsAllowed db db'
  Charged-IsAllowed order key c =
      let h = Charged-is_open u env user order key db db' c v in
      rw c.effect (record {
        consistent = with_payment-IsConsistent db (u.value order) key _ v h refl;
        move = sells (u.value order) (payment-view db v (u.value order) h key _);
      })

  pub Cancelled-IsAllowed : (order : String) → Cancelled u env user order db db' → IsAllowed db db'
  Cancelled-IsAllowed order c =
      let h = Cancelled-is_open u env user order db db' c v in
      rw c.effect (record {
        consistent = cancel-IsConsistent (u.value order) db v h;
        move = frees (λ k. k == u.value order) (cancel-view db v (u.value order) h);
      })

pub expired-IsAllowed :
    (env : Env) (w : World) → IsConsistent w.db → IsAllowed w.db (expire_overdue_orders env w).1.db
expired-IsAllowed env w v = elim (expire_overdue_orders_effect env w) [
  | inl same ↦ same-IsAllowed v same
  | inr e ↦ rw e (record { consistent = expire-IsConsistent _ w.db v; move = expire-Move w.db v _ })
]
