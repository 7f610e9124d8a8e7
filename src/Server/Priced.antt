-- ===== src/Server/Priced.antt =====
-- In every reachable state of the deployed service each item costs what its seat costs.
use ticket_booking.Base.{refl, inl, inr}
use ticket_booking.Db.{Db}
use ticket_booking.Db.Priced.{
  IsPriced, with_booking-IsPriced, with_payment-IsPriced, cancel-IsPriced, expire-IsPriced,
  with_event-IsPriced, with_events-IsPriced,
}
use ticket_booking.World.{World}
use ticket_booking.Cancel.Effect.{expire_overdue_orders_effect}
use ticket_booking.Accounts.Kept.{OnlyUsers}
use ticket_booking.Server.{Http, Setup, Meets, Service}
use ticket_booking.Server.Effect.{
  Effect, stays, joins, books, pays, cancels, creates, patches, serve-Effect,
}
use ticket_booking.Server.Safety.{boots-OnlyUsers}
use ticket_booking.Server.Live.{
  Step, requests, ticks, boots, redis_changes, log_drains, Reach, here, after,
}

OnlyUsers-IsPriced : (db db' : Db) → IsPriced db → OnlyUsers db db' → IsPriced db'
OnlyUsers-IsPriced db db' h (users, e) =
    rw e (record { events_differ = h.events_differ; items_priced = h.items_priced })

module _ (x : Setup) where
  Effect-IsPriced :
      (m : Meets) (r : Http) (w : World) (db' : Db)
      → IsPriced w.db
      → Effect x m r w db'
      → IsPriced db'
  Effect-IsPriced m r w db' h (stays same) = rw same h
  Effect-IsPriced m r w db' h (joins o) = OnlyUsers-IsPriced w.db db' h o
  Effect-IsPriced m r w db' h (books user b g c a p) =
      rw p.effect (with_booking-IsPriced w.db h _ _ _ _ _)
  Effect-IsPriced m r w db' h (pays user id g c) = rw c.effect (with_payment-IsPriced w.db h _ _ _)
  Effect-IsPriced m r w db' h (cancels user id g c) = rw c.effect (cancel-IsPriced w.db h _)
  Effect-IsPriced m r w db' h (creates user g made) = rw made.created.effect (
      with_event-IsPriced w.db h made.created.event _
        (rw made.created.asked.id_is made.created.new_id))
  Effect-IsPriced m r w db' h (patches user id c g e) =
      rw e (with_events-IsPriced w.db h _ _ (λ e. refl))

  Step-IsPriced : {v v' : Service} → IsPriced v.world.db → Step x v v' → IsPriced v'.world.db
  Step-IsPriced {v} h (requests m r e) =
      rw e (Effect-IsPriced m r v.world _ h (serve-Effect x m r v))
  Step-IsPriced {v} h (ticks env e) = rw e (elim (expire_overdue_orders_effect env v.world) [
    | inl same ↦ rw same h
    | inr gone ↦ rw gone (expire-IsPriced v.world.db h _)
  ])
  Step-IsPriced {v} h (boots c email password e) =
      rw e (OnlyUsers-IsPriced v.world.db _ h (boots-OnlyUsers x c email password v.world))
  Step-IsPriced h (redis_changes r s e) = rw e h
  Step-IsPriced h (log_drains rest e) = rw e h

  pub Reach-IsPriced : {v v' : Service} → IsPriced v.world.db → Reach x v v' → IsPriced v'.world.db
  Reach-IsPriced h here = h
  Reach-IsPriced h (after r s) = Step-IsPriced (Reach-IsPriced h r) s
