-- ===== src/Admin/Consistent.antt =====
-- The administration of events keeps the tables consistent and moves no seat.
use ticket_booking.Base.{
  ℕ, ◌≡◌, refl, true, false, List, [], ◌∷◌, ◌++◌, arith, ◌==◌, ==→eq, any, All, Distinct,
  any-append, All-append, All-imp, All-map, Bool-cases, subst, inl, inr, String, Option,
}
use ticket_booking.Db.{Db, Seat, Order, Item, Event, is_sold}
use ticket_booking.Db.Rows.{paid_for}
use ticket_booking.Db.Consistent.{IsConsistent, seat_key, item_seat}
use ticket_booking.Spec.{stays}
use ticket_booking.Spec.Allowed.{IsAllowed, same-IsAllowed}
use ticket_booking.World.{World, Env, Uuids, Response}
use ticket_booking.Admin.Tables.{
  NewEvent, Draws, Plan, same_key, breaches, places, seat_at, new_seats,
}
use ticket_booking.Admin.Handlers.{create_admin_event}
use ticket_booking.Admin.Effect.{Opened, Created, create_admin_event_effect}

-- Rows that breach no key have ids of their own.
Distinct-breaches :
    (xs old : List Seat)
    → breaches xs old ≡ false
    → Distinct seat_key old
    → Distinct seat_key (xs ++ old)
Distinct-breaches [] old h d = d
Distinct-breaches (x ∷ xs) old h d =
    (no_id x (xs ++ old) (ground (arith, h)), Distinct-breaches xs old (ground (arith, h)) d)
  where
    no_id :
        (x : Seat) (ys : List Seat)
        → any (same_key x) ys ≡ false
        → any (λ y. y.id == x.id) ys ≡ false
    no_id x [] h = refl
    no_id x (y ∷ ys) h = ground (arith, no_id x ys)

-- A seat that stands in no row is in no item.
free_lem :
    (k : ℕ) (seats : List Seat) (items : List Item)
    → All (λ i. any (λ s. seat_key s == i.seat_id) seats ≡ true) items
    → any (λ s. seat_key s == k) seats ≡ false
    → any (λ i. item_seat i == k) items ≡ false
free_lem k seats [] h n = refl
free_lem k seats (i ∷ is) (h, t) n = elim (Bool-cases (i.seat_id == k)) [
  | inl q ↦
      let e : any (λ s. seat_key s == k) seats ≡ true =
        subst (λ x. any (λ s. seat_key s == x) seats ≡ true) (==→eq i.seat_id k q) h in
      cc
  | inr q ↦ rw q (free_lem k seats is t n)
]

-- A seat that is in no item is in no paid order.
unpaid_lem :
    (orders : List Order) (k : ℕ) (items : List Item)
    → any (λ i. item_seat i == k) items ≡ false
    → paid_for orders items k ≡ false
unpaid_lem orders k [] h = refl
unpaid_lem orders k (i ∷ is) h = ground (arith, unpaid_lem orders k is)

-- Rows that breach no key have no id of an old row.
new_id :
    (x : Seat) (xs old : List Seat)
    → any (same_key x) (xs ++ old) ≡ false
    → any (λ y. seat_key y == x.id) old ≡ false
new_id x [] [] h = refl
new_id x [] (y ∷ ys) h = ground (arith, new_id x [] ys)
new_id x (y ∷ xs) old h = new_id x xs old (ground (arith, h))

unsold_lem :
    (orders : List Order) (items : List Item) (xs old : List Seat)
    → All (λ i. any (λ s. seat_key s == i.seat_id) old ≡ true) items
    → All (λ s. is_sold s.status ≡ false) xs
    → breaches xs old ≡ false
    → All (λ s. is_sold s.status ≡ paid_for orders items s.id) xs
unsold_lem orders items [] old f a h = tt
unsold_lem orders items (x ∷ xs) old f (a, t) h = (
  ground (
    arith,
    a,
    unpaid_lem orders x.id items (free_lem x.id old items f (new_id x xs old (ground (arith, h)))),
  ),
  unsold_lem orders items xs old f t (ground (arith, h)),
)

-- New seats that are AVAILABLE, under keys of their own, with any change of the events.
pub with_seats-IsConsistent :
    (db : Db) (events : List Event) (xs : List Seat)
    → IsConsistent db
    → All (λ s. is_sold s.status ≡ false) xs
    → breaches xs db.seats ≡ false
    → IsConsistent (record db { events = events; seats = xs ++ db.seats })
with_seats-IsConsistent db events xs v a h = record {
  orders_differ = v.orders_differ;
  seats_differ = Distinct-breaches xs db.seats h v.seats_differ;
  one_item = v.one_item;
  items_seated =
      All-imp (λ i. any (λ s. seat_key s == i.seat_id) db.seats ≡ true)
        (λ i. any (λ s. seat_key s == i.seat_id) (xs ++ db.seats) ≡ true)
        (λ i e. ground (arith, e, any-append (λ s. seat_key s == i.seat_id) xs db.seats)) db.items
        v.items_seated;
  items_active = v.items_active;
  sold_is_paid =
      All-append _ xs db.seats (unsold_lem db.orders db.items xs db.seats v.items_seated a h)
        v.sold_is_paid;
  payments_paid = v.payments_paid;
  one_payment = v.one_payment;
  paid_is_charged = v.paid_is_charged;
  amounts = v.amounts;
}

module _ (u : Uuids) (parse_time : String → Option ℕ) (env : Env) (w : World) where
  pub Created-IsAllowed :
      IsConsistent w.db
      → (d : Draws) (b : NewEvent) (p : Plan) (db : Db) → Created u parse_time env d b p w.db db
      → IsAllowed w.db db
  Created-IsAllowed v d b p db c = rw c.effect (record {
    consistent =
        with_seats-IsConsistent w.db _ (new_seats d env.fresh p) v
          (All-map (λ s. is_sold s.status ≡ false) (seat_at d env.fresh p) (λ _. refl)
            (places p.rows p.seats_per_row))
          c.untaken;
    move = stays refl;
  })

  pub create_admin_event-IsAllowed :
      IsConsistent w.db
      → (d : Draws) (body : Option NewEvent)
      → IsAllowed w.db (create_admin_event u parse_time env d body w).1.db
  create_admin_event-IsAllowed v d body =
      go (create_admin_event u parse_time env d body w)
        (create_admin_event_effect u parse_time env d body w)
    where
      go : (r : Response × World) → Opened u parse_time env d body w r → IsAllowed w.db r.1.db
      go (resp, w') (t, inl (n, same)) = same-IsAllowed v same
      go (resp, w') (t, inr (m, e)) = Created-IsAllowed v d m.asked m.plan w'.db m.created
