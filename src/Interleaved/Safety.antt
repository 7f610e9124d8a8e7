-- ===== src/Interleaved/Safety.antt =====
-- Safety of the service when requests interleave.
use ticket_booking.Base.{
  at_most_one, ℕ, ◌≤◌, ◌≡◌, refl, ap, ◌∙◌, sym, Bool, true, false, inl, inr, Bool-cases, ◌==◌,
  length, select, All,
}
use ticket_booking.Db.{is_sold, one_of}
use ticket_booking.Db.Rows.{paid_for}
use ticket_booking.Db.Consistent.{IsConsistent, item_seat, paid_order}
use ticket_booking.Spec.{
  Holding, free, held, sold, Holdings, Move, stays, reserves, sells, frees, view,
}
use ticket_booking.Spec.Allowed.{IsAllowed, same-IsAllowed, expired-IsAllowed}
use ticket_booking.Admin.Consistent.{create_admin_event-IsAllowed}
use ticket_booking.Admin.Update.{patch_admin_event-IsAllowed}
use ticket_booking.World.{App, Uuids}
use ticket_booking.Interleaved.{
  Service, Step, asks_booking, asks_payment, asks_cancellation, advances, dies, expires, creates,
  patches, redis_changes, log_drains, Reach, here, after,
}
use ticket_booking.Interleaved.Change.{
  advance-IsAllowed, book_request-IsAllowed, pay_request-IsAllowed, cancel_request-IsAllowed,
}

abbrev is_free : Holding → Bool
is_free free = true
is_free (held o) = false
is_free (sold o) = false

-- What is sold stays sold, by every move.
Move-sold : {v v' : Holdings} → Move v v' → (s o : ℕ) → v s ≡ sold o → v' s ≡ sold o
Move-sold (stays e) s o h = ap (λ f. f s) e ∙ h
Move-sold (reserves k seats new are_free e) s o h = elim (Bool-cases (one_of seats s)) [
  | inl q ↦ let clash = ap is_free (sym (are_free s q) ∙ h) in cc
  | inr q ↦ ap (λ f. f s) e ∙ rw q h
]
Move-sold (sells k e) s o h = ap (λ f. f s) e ∙ rw h refl
Move-sold (frees gone e) s o h = ap (λ f. f s) e ∙ rw h refl

module _ (u : Uuids) (app : App) where
  Step-IsAllowed :
      {s s' : Service}
      → Step u app s s'
      → IsConsistent s.world.db
      → IsAllowed s.world.db s'.world.db
  Step-IsAllowed {s} (asks_booking env user body e) v =
      rw e (book_request-IsAllowed u app s.world v env user body)
  Step-IsAllowed {s} (asks_payment env user order key e) v =
      rw e (pay_request-IsAllowed u app s.world v env user order key)
  Step-IsAllowed {s} (asks_cancellation env user order e) v =
      rw e (cancel_request-IsAllowed u app s.world v env user order)
  Step-IsAllowed {s} (advances first j others e f) v = rw f (advance-IsAllowed u app s.world v j)
  Step-IsAllowed (dies first j others e f) v = rw f (same-IsAllowed v refl)
  Step-IsAllowed {s} (expires env e) v = rw e (expired-IsAllowed env s.world v)
  Step-IsAllowed {s} (creates parse_time env d body e) v =
      rw e (create_admin_event-IsAllowed u parse_time env s.world v d body)
  Step-IsAllowed {s} (patches parse_time env d id body e) v =
      rw e (patch_admin_event-IsAllowed u parse_time env d id body s.world v)
  Step-IsAllowed (redis_changes r e) v = rw e (same-IsAllowed v refl)
  Step-IsAllowed (log_drains rest e) v = rw e (same-IsAllowed v refl)

  Step-Move :
      {s s' : Service}
      → IsConsistent s.world.db
      → Step u app s s'
      → Move (view s.world.db) (view s'.world.db)
  Step-Move v st = (Step-IsAllowed st v).move

  Reach-IsConsistent :
      {s s' : Service} → IsConsistent s.world.db → Reach u app s s' → IsConsistent s'.world.db
  Reach-IsConsistent v here = v
  Reach-IsConsistent v (after r st) = (Step-IsAllowed st (Reach-IsConsistent v r)).consistent

  Reach-sold :
      {s s' : Service}
      → IsConsistent s.world.db
      → Reach u app s s'
      → (k o : ℕ) → view s.world.db k ≡ sold o
      → view s'.world.db k ≡ sold o
  Reach-sold v here k o h = h
  Reach-sold v (after r st) k o h =
      Move-sold (Step-Move (Reach-IsConsistent v r) st) k o (Reach-sold v r k o h)

  -- From consistent tables, however the phases of any requests interleave, whatever calls fail,
  -- requests die or Redis holds, a seat is in at most one order, it is SOLD exactly if a paid order has
  -- it, an order has at most one payment, and a seat once sold to an order is sold to that order.
  pub interleaved_no_oversell :
      {s s' : Service}
      → IsConsistent s.world.db
      → Reach u app s s'
      → ((k : ℕ) → length (select (λ i. i.seat_id == k) s'.world.db.items) ≤ 1)
        × All
            (λ x. is_sold x.status ≡ paid_for s'.world.db.orders s'.world.db.items x.id)
            s'.world.db.seats
        × ((o : ℕ) → length (select (λ p. p.order_id == o) s'.world.db.payments) ≤ 1)
        × ((k o : ℕ) → view s.world.db k ≡ sold o → view s'.world.db k ≡ sold o)
  interleaved_no_oversell {s} {s'} v r =
      let v' = Reach-IsConsistent v r in
      (
        λ k. at_most_one item_seat k s'.world.db.items v'.one_item,
        v'.sold_is_paid,
        λ o. at_most_one paid_order o s'.world.db.payments v'.one_payment,
        Reach-sold v r,
      )
