-- ===== src/Server/Journey.antt =====
-- A customer who books over HTTP and then pays.
use ticket_booking.Base.{
  sym, ℕ, ◌+◌, ◌*◌, ◌≤◌, ◌<◌, String, ◌≡◌, refl, ◌∙◌, subst, ap, true, false, List, map, any, ◌==◌,
  str_eq, is_uuid, length, select, arith, inl, inr, Option,
}
use ticket_booking.Db.{Order, pending, of_order, sum_price, new_items}
use ticket_booking.Db.Consistent.{IsConsistent}
use ticket_booking.Db.Consistent.Insert.{with_booking}
use ticket_booking.World.{World, Site, Response, charged, calm, begin_tx, lock_order, run_hold}
use ticket_booking.Redis
use ticket_booking.Booking.{Request, create_booking}
use ticket_booking.Booking.Body.{IsChecked}
use ticket_booking.Booking.Admission.{IsAdmitted, keys}
use ticket_booking.Booking.Ready.{IsFree}
use ticket_booking.Booking.Effect.{Placed}
use ticket_booking.Booking.Answer.{Answered, create_booking_effect}
use ticket_booking.Booking.Progress.{create_booking-progress}
use ticket_booking.Payment.{own_order, pay_order}
use ticket_booking.World.{error}
use ticket_booking.Db.Rows.{status_of, has_paid}
use ticket_booking.Accounts.{lets}
use ticket_booking.Server.{Http, Setup, Meets, Reply, Service, answered, decode_json}
use ticket_booking.Server.Routes
use ticket_booking.Server.Handle.{bearer, handle}
use ticket_booking.Server.Serve.{Answer, serve}
use ticket_booking.Server.Live.{requests}
use ticket_booking.Server.Safety.{live_moves}
use ticket_booking.Server.Progress.{IsRouted, serve-reply, serve-world, pay_over_http}
use ticket_booking.Server.Tables.{booked_some, paid_tables}

module _ (x : Setup) (m : Meets) (r : Http) (v : Service) (clock : Site → ℕ) (fresh : ℕ)
    (user : String) where
  -- The tables after a booking over HTTP that is answered 201.
  booked_tables :
      (body : Option Request)
      → (create_booking x.uuids x.app (calm clock fresh) user body v.world).0.status ≡ 201
      → (b : Request) × IsChecked body b
        × Placed x.uuids x.app
            (calm clock fresh)
            user
            b
            v.world.db
            (create_booking x.uuids x.app (calm clock fresh) user body v.world).1.db
  booked_tables body =
      go (create_booking x.uuids x.app (calm clock fresh) user body v.world)
        (create_booking_effect x.uuids x.app (calm clock fresh) user body v.world)
    where
      go :
          (a : Response × World)
          → Answered x.uuids x.app (calm clock fresh) user body v.world a
          → a.0.status ≡ 201
          → (b : Request) × IsChecked body b
            × Placed x.uuids x.app (calm clock fresh) user b v.world.db a.1.db
      go (resp, w') (inl (n, same)) e = absurd (n e)
      go (resp, w') (inr (b, c, a, p, q)) e = (b, c, p)

  booked_world :
      m.env ≡ calm clock fresh
      → IsRouted x m r v Routes.create_booking ""
      → bearer x m r ≡ lets user
      → (serve x m r v).1.world
        ≡ (create_booking x.uuids x.app
            (calm clock fresh)
            user
            (decode_json x.json.booking r.body)
            v.world).1
  unfolding handle
  booked_world e h g = serve-world x m r v Routes.create_booking "" h ∙ rw (g, e) refl

  -- The state after the booking, and the order that it leaves.
  abbrev booked_state : Service
  booked_state = (serve x m r v).1

  abbrev order_of : ℕ → Order
  order_of deadline = record {
    id = fresh;
    user_id = x.uuids.value user;
    status = pending;
    expires_at = deadline;
  }

  abbrev response_of : Reply → Response
  response_of (answered resp) = resp
  response_of _ = record { status = 0; body = error "" }

  paid_state :
      (m' : Meets) (r' : Http) (v' : Service) (id : String) (amount : ℕ)
      → IsConsistent v'.world.db
      → IsRouted x m' r' v' Routes.pay_order id
      → bearer x m' r' ≡ lets user
      → (serve x m' r' v').0.reply ≡ answered (record { status = 200; body = charged id amount })
      → let db = (serve x m' r' v').1.world.db in
        (has_paid (status_of (x.uuids.value id) db.orders) ≡ true) × (db.items ≡ v'.world.db.items)
  unfolding handle
  paid_state m' r' v' id amount c h g e =
      let routed : (handle x m' r' Routes.pay_order id v'.world).0
          ≡ answered (pay_order x.uuids m'.env user id r'.idempotency_key v'.world).0 =
        rw g refl in
      let reply : (pay_order x.uuids m'.env user id r'.idempotency_key v'.world).0
          ≡ record { status = 200; body = charged id amount } =
        ap response_of (sym (serve-reply x m' r' v' Routes.pay_order id h ∙ routed) ∙ e) in
      rw (serve-world x m' r' v' Routes.pay_order id h, g)
        (paid_tables x user m'.env id r'.idempotency_key amount v'.world c reply)

  -- The charge of the order's items, after which the order is paid and still has them.
  pub record PaidUp (id : String) (v' : Service) (o : Answer × Service) : Type 0 where
    pub charge :
        o.0.reply
        ≡ answered (record {
          status = 200;
          body = charged id (sum_price (select (of_order fresh) v'.world.db.items));
        })
    pub is_paid : has_paid (status_of fresh o.1.world.db.orders) ≡ true
    pub same_items : o.1.world.db.items ≡ v'.world.db.items

  paid_up :
      (m' : Meets) (r' : Http) (v' : Service) (id : String)
      → IsConsistent v'.world.db
      → x.uuids.value id ≡ fresh
      → IsRouted x m' r' v' Routes.pay_order id
      → bearer x m' r' ≡ lets user
      → (serve x m' r' v').0.reply
        ≡ answered (record {
          status = 200;
          body = charged id (sum_price (select (of_order fresh) v'.world.db.items));
        })
      → PaidUp id v' (serve x m' r' v')
  paid_up m' r' v' id c is_id h g e =
      let (done, same) = paid_state m' r' v' id _ c h g e in
      record {
        charge = e;
        is_paid =
            subst (λ k. has_paid (status_of k (serve x m' r' v').1.world.db.orders) ≡ true) is_id
              done;
        same_items = same;
      }

  pays_for :
      (m' : Meets) (r' : Http) (v' : Service) (clock' : Site → ℕ) (fresh' deadline event : ℕ)
      (ids : List ℕ) (id : String)
      → IsConsistent v.world.db
      → IsConsistent v'.world.db
      → any (λ (o : Order). o.id == fresh) v.world.db.orders ≡ false
      → 0 < length (new_items fresh ids event v.world.db.seats)
      → v'.world.db ≡ with_booking v.world.db fresh (x.uuids.value user) deadline event ids
      → m'.env ≡ calm clock' fresh'
      → IsRouted x m' r' v' Routes.pay_order id
      → bearer x m' r' ≡ lets user
      → is_uuid id ≡ true
      → x.uuids.value id ≡ fresh
      → str_eq r'.idempotency_key "" ≡ false
      → any (λ p. str_eq p.idempotency_key r'.idempotency_key) v.world.db.payments ≡ false
      → clock' lock_order ≤ deadline
      → sum_price (select (of_order fresh) v'.world.db.items) < 10000000000
      → (serve x m' r' v').0.reply
        ≡ answered (record {
          status = 200;
          body = charged id (sum_price (select (of_order fresh) v'.world.db.items));
        })
  unfolding own_order
  pays_for m' r' v' clock' fresh' deadline event ids id c c' new any_item eff e h g i is_id key free
        t small =
      subst
        (λ k.
          (serve x m' r' v').0.reply
          ≡ answered (record {
            status = 200;
            body = charged id (sum_price (select (of_order k) v'.world.db.items));
          }))
        is_id
        (pay_over_http x m' r' v' clock' fresh' user id (order_of deadline) e c' h g i key
          (rw eff free) (rw (eff, is_id) (ground arith)) refl t
          (rw (eff, is_id)
            (booked_some v.world.db c fresh (x.uuids.value user) deadline event ids new any_item))
          (rw is_id small))

  -- On consistent tables, whoever books over HTTP as nothing stands in his way can pay for it. His
  -- request to pay, none of whose calls fails and which no limit stands against, with the order's id,
  -- under a key that no payment has, before the deadline, for items that come to less than
  -- 100,000,000.00, is answered with the charge of the order's items in the tables that the booking left;
  -- and then the order is paid and still has them.
  pub book_then_pay :
      (b : Request) (m' : Meets) (r' : Http) (clock' : Site → ℕ) (fresh' : ℕ) (id : String)
      → IsConsistent v.world.db
      → m.env ≡ calm clock fresh
      → IsRouted x m r v Routes.create_booking ""
      → bearer x m r ≡ lets user
      → IsChecked (decode_json x.json.booking r.body) b
      → IsAdmitted x.uuids x.app (calm clock fresh) user v.world.db b
      → 0 < x.app.hold_ttl
      → any
          (Redis.exists v.world.redis (clock run_hold))
          (keys x.uuids x.app (calm clock fresh) user b)
        ≡ false
      → IsFree x.uuids x.app clock fresh user v.world.db b
      → m'.env ≡ calm clock' fresh'
      → IsRouted x m' r' booked_state Routes.pay_order id
      → bearer x m' r' ≡ lets user
      → is_uuid id ≡ true
      → x.uuids.value id ≡ fresh
      → str_eq r'.idempotency_key "" ≡ false
      → any (λ p. str_eq p.idempotency_key r'.idempotency_key) v.world.db.payments ≡ false
      → clock' lock_order ≤ clock begin_tx + 1000 * x.app.hold_ttl
      → sum_price (select (of_order fresh) booked_state.world.db.items) < 10000000000
      → PaidUp id booked_state (serve x m' r' booked_state)
  book_then_pay b m' r' clock' fresh' id v₀ e h g c a p k f e' h' g' i is_id key new t small =
      let done =
        create_booking-progress x.uuids x.app clock fresh user (decode_json x.json.booking r.body) b
          v.world c a p k f in
      let (b₁, c₁, q) =
        booked_tables (decode_json x.json.booking r.body) (ap (λ (y : Response). y.status) done) in
      let c' = (live_moves x v₀ (requests m r refl)).0 in
      paid_up m' r' booked_state id c' is_id h' g' (
        pays_for m' r' booked_state clock' fresh' (clock begin_tx + 1000 * x.app.hold_ttl)
          (x.uuids.value b₁.event_id) (map x.uuids.value b₁.seat_ids) id v₀ c' q.new_id
          (omega (arith, q.all_seats, c₁.some_seats))
          (ap (λ (y : World). y.db) (booked_world e h g) ∙ q.effect) e' h' g' i is_id key new t
          small)
