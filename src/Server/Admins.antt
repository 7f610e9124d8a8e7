-- ===== src/Server/Admins.antt =====
-- What only an administrator may change.
use ticket_booking.Base.{ℕ, String, ◌≡◌, ◌≢◌, refl, Bool, List, [], ◌∷◌, map, update, if_cases}
use ticket_booking.Db.{Db, Seat, set_status, delete_items}
use ticket_booking.Db.Consistent.Pay.{with_payment}
use ticket_booking.World.{World}
use ticket_booking.Accounts.{lets}
use ticket_booking.Server.{Http, Setup, Meets, Service}
use ticket_booking.Server.Handle.{admin}
use ticket_booking.Server.Serve.{serve}
use ticket_booking.Server.Effect.{
  Effect, stays, joins, books, pays, cancels, creates, patches, serve-Effect,
}

-- A seat without its status.
pub record Place : Type 0 where
  pub id : ℕ
  pub event_id : ℕ
  pub seat_no : String
  pub price : ℕ

abbrev pub place : Seat → Place
place s = record { id = s.id; event_id = s.event_id; seat_no = s.seat_no; price = s.price }

map-update-place :
    (p : Seat → Bool) (f : Seat → Seat)
    → ((s : Seat) → place (f s) ≡ place s)
    → (seats : List Seat) → map place (update p f seats) ≡ map place seats
map-update-place p f e [] = refl
map-update-place p f e (s ∷ ss) =
    if_cases (λ y. map place (y ∷ update p f ss) ≡ map place (s ∷ ss)) (p s) (f s) s
      (λ _. rw (e s, map-update-place p f e ss) refl) (λ _. rw (map-update-place p f e ss) refl)

pub record HasSameEvents (db db' : Db) : Type 0 where
  pub same_events : db'.events ≡ db.events
  pub same_places : map place db'.seats ≡ map place db.seats

module _ (x : Setup) (m : Meets) (r : Http) where
  Effect-HasSameEvents :
      (w : World) (db' : Db)
      → ((user : String) → admin x m r w ≢ lets user)
      → Effect x m r w db'
      → HasSameEvents w.db db'
  unfolding with_payment set_status delete_items
  Effect-HasSameEvents w db' n (stays same) =
      rw same (record { same_events = refl; same_places = refl })
  Effect-HasSameEvents w db' n (joins (users, e)) =
      rw e (record { same_events = refl; same_places = refl })
  Effect-HasSameEvents w db' n (books user b g c a p) =
      rw p.effect (record { same_events = refl; same_places = refl })
  Effect-HasSameEvents w db' n (pays user id g c) =
      rw c.effect
        (record { same_events = refl; same_places = map-update-place _ _ (λ s. refl) w.db.seats })
  Effect-HasSameEvents w db' n (cancels user id g c) =
      rw c.effect (record { same_events = refl; same_places = refl })
  Effect-HasSameEvents w db' n (creates user g made) = absurd (n user g)
  Effect-HasSameEvents w db' n (patches user id c g e) = absurd (n user g)

  -- Only a request whose token is an administrator's, by the table of users at that moment, changes the
  -- events: any other one leaves every event as it is, adds no seat, and leaves each seat's event, label
  -- and price.
  pub only_admins :
      (v : Service)
      → ((user : String) → admin x m r v.world ≢ lets user)
      → HasSameEvents v.world.db (serve x m r v).1.world.db
  only_admins v n = Effect-HasSameEvents v.world (serve x m r v).1.world.db n (serve-Effect x m r v)
