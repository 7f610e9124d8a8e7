-- ===== src/Server/Access.antt =====
-- Whose order a request may touch.
use ticket_booking.Base.{
  ℕ, String, ◌≡◌, refl, ◌∙◌, Bool, true, false, ◌&&◌, none, some, List, [], ◌∷◌, arith, ◌==◌, ==→eq,
  any, select, first, All-of, All-map, select_none, select-append, Bool-cases, none_lem, inl, inr,
}
use mathlib.Core.Bool.{not}
use ticket_booking.Db.{
  Db, Order, paid, cancelled, of_order, item_for, new_items, set_status, delete_items,
}
use ticket_booking.Db.Rows.{status_of, status_of-update, items_kept}
use ticket_booking.Db.Consistent.Insert.{with_booking}
use ticket_booking.Db.Consistent.Pay.{with_payment}
use ticket_booking.World.{World}
use ticket_booking.Accounts.{lets}
use ticket_booking.Payment.{own_order}
use ticket_booking.Server.{Http, Setup, Meets, Service}
use ticket_booking.Server.Handle.{bearer}
use ticket_booking.Server.Serve.{serve}
use ticket_booking.Server.Effect.{
  Effect, stays, joins, books, pays, cancels, creates, patches, serve-Effect,
}

-- An order with its status, its seats and its payments.
pub record IsKept (k : ℕ) (db db' : Db) : Type 0 where
  pub same_status : status_of k db'.orders ≡ status_of k db.orders
  pub same_items : select (of_order k) db'.items ≡ select (of_order k) db.items
  pub same_payments :
      select (λ p. p.order_id == k) db'.payments ≡ select (λ p. p.order_id == k) db.payments

same-IsKept : (k : ℕ) (db db' : Db) → db' ≡ db → IsKept k db db'
same-IsKept k db db' e =
    rw e (record { same_status = refl; same_items = refl; same_payments = refl })

first-any : (p : Order → Bool) (o : Order) (os : List Order) → first p os ≡ some o → any p os ≡ true
first-any p o [] h = absurd (none_lem none o refl h)
first-any p o (x ∷ xs) h = ground (arith, h, first-any p o xs)

module _ (k : ℕ) (db : Db) where
  books-IsKept :
      (fresh user expires_at event : ℕ) (ids : List ℕ)
      → any (λ o. o.id == fresh) db.orders ≡ false
      → any (λ o. o.id == k) db.orders ≡ true
      → IsKept k db (with_booking db fresh user expires_at event ids)
  unfolding new_items
  books-IsKept fresh user expires_at event ids n there = record {
    same_status = ground (arith, other);
    same_items =
        select-append (of_order k) (new_items fresh ids event db.seats) db.items
        ∙ rw
            (select_none (of_order k) (new_items fresh ids event db.seats)
              (All-map (λ i. of_order k i ≡ false) (item_for fresh) (λ s. other) _))
            refl;
    same_payments = refl;
  }
    where
      other : (fresh == k) ≡ false
      other = elim (Bool-cases (fresh == k)) [
        | inl e ↦
            let there' : any (λ o. o.id == fresh) db.orders ≡ true = rw (==→eq fresh k e) there in
            cc
        | inr e ↦ e
      ]

  pays-IsKept :
      (o : ℕ) (key : String) (amount : ℕ)
      → (o == k) ≡ false
      → IsKept k db (with_payment db o key amount)
  unfolding with_payment
  pays-IsKept o key amount ne = record {
    same_status = ground (arith, status_of-update paid o k db.orders);
    same_items = refl;
    same_payments = ground (arith, ne);
  }

  cancels-IsKept :
      (o : ℕ) → (o == k) ≡ false → IsKept k db (set_status cancelled o (delete_items o db))
  unfolding set_status delete_items
  cancels-IsKept o ne = record {
    same_status = ground (arith, status_of-update cancelled o k db.orders);
    same_items =
        items_kept k (λ i. not (of_order o i)) db.items
          (All-of _ (λ i e. ground (arith, e, ne)) db.items);
    same_payments = refl;
  }

module _ (x : Setup) (m : Meets) (r : Http) (k : ℕ) where
  -- Another order than one that the user has.
  other_order :
      (user o : ℕ) (db : Db) (order : Order)
      → any (λ y. y.id == k && y.user_id == user) db.orders ≡ false
      → first (λ y. y.id == o && y.user_id == user) db.orders ≡ some order
      → (o == k) ≡ false
  other_order user o db order n e = elim (Bool-cases (o == k)) [
    | inl q ↦
        let mine : any (λ y. y.id == o && y.user_id == user) db.orders ≡ false =
          rw (==→eq o k q) n in
        let found = first-any (λ y. y.id == o && y.user_id == user) order db.orders e in cc
    | inr q ↦ q
  ]

  Effect-IsKept :
      (w : World) (db' : Db)
      → any (λ o. o.id == k) w.db.orders ≡ true
      → ((user : String)
          → bearer x m r ≡ lets user
          → any (λ o. o.id == k && o.user_id == x.uuids.value user) w.db.orders ≡ false)
      → Effect x m r w db'
      → IsKept k w.db db'
  unfolding own_order
  Effect-IsKept w db' there n (stays same) = same-IsKept k w.db db' same
  Effect-IsKept w db' there n (joins (users, e)) =
      rw e (record { same_status = refl; same_items = refl; same_payments = refl })
  Effect-IsKept w db' there n (books user b g c a p) =
      rw p.effect (books-IsKept k w.db _ _ _ _ _ p.new_id there)
  Effect-IsKept w db' there n (pays user id g c) = rw c.effect (
      pays-IsKept k w.db _ _ _
        (other_order (x.uuids.value user) (x.uuids.value id) w.db c.order (n user g) c.own))
  Effect-IsKept w db' there n (cancels user id g c) = rw c.effect (
      cancels-IsKept k w.db _
        (other_order (x.uuids.value user) (x.uuids.value id) w.db c.order (n user g) c.found))
  Effect-IsKept w db' there n (creates user g made) =
      rw made.created.effect
        (record { same_status = refl; same_items = refl; same_payments = refl })
  Effect-IsKept w db' there n (patches user id c g e) =
      rw e (record { same_status = refl; same_items = refl; same_payments = refl })

  -- An order changes only by a request of its own customer: a request without a valid token, or with
  -- one of a user who has no order of that id, leaves the order's status, its seats and its payments as
  -- they are, whatever the request brings and whichever calls fail.
  pub strangers_keep :
      (v : Service)
      → any (λ o. o.id == k) v.world.db.orders ≡ true
      → ((user : String)
          → bearer x m r ≡ lets user
          → any (λ o. o.id == k && o.user_id == x.uuids.value user) v.world.db.orders ≡ false)
      → IsKept k v.world.db (serve x m r v).1.world.db
  strangers_keep v there n =
      Effect-IsKept v.world (serve x m r v).1.world.db there n (serve-Effect x m r v)
