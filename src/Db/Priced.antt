-- ===== src/Db/Priced.antt =====
-- What an item costs: the price of its seat, which never changes after the item is made.
use ticket_booking.Base.{
  ℕ, String, ◌≡◌, refl, ◌∙◌, Bool, true, false, ◌&&◌, List, [], ◌∷◌, ◌++◌, arith, ◌==◌, any, update,
  All, Distinct, Distinct-update, any-append, any-update, All-append, All-imp, All-select,
  All-map_of,
}
use ticket_booking.Db.{
  Db, Event, Seat, Item, cancelled, item_for, bookable, new_items, set_status, delete_items,
  expire_overdue,
}
use ticket_booking.Db.Consistent.Insert.{with_booking}
use ticket_booking.Db.Consistent.Pay.{with_payment}

abbrev pub event_key : Event → ℕ
event_key e = e.id

-- Some seat of that id has that price.
abbrev pub HasPrice : List Seat → Item → Type 0
HasPrice seats i = any (λ s. s.id == i.seat_id && s.price == i.price) seats ≡ true

pub record IsPriced (db : Db) : Type 0 where
  pub events_differ : Distinct event_key db.events
  pub items_priced : All (HasPrice db.seats) db.items

own_price : (seats : List Seat) → All (λ s. HasPrice seats (item_for 0 s)) seats
own_price [] = tt
own_price (x ∷ xs) = (
  ground arith,
  All-imp (λ s. HasPrice xs (item_for 0 s)) (λ s. HasPrice (x ∷ xs) (item_for 0 s))
      (λ s h. ground (arith, h)) xs (own_price xs),
)

module _ (db : Db) (h : IsPriced db) where
  pub with_booking-IsPriced :
      (fresh user expires_at event : ℕ) (ids : List ℕ)
      → IsPriced (with_booking db fresh user expires_at event ids)
  unfolding new_items
  with_booking-IsPriced fresh user expires_at event ids = record {
    events_differ = h.events_differ;
    items_priced =
        All-append (HasPrice db.seats) (new_items fresh ids event db.seats) db.items
          (All-map_of (HasPrice db.seats) (λ s. HasPrice db.seats (item_for 0 s)) (item_for fresh)
            (λ s k. k) _ (All-select _ (bookable ids event) db.seats (own_price db.seats)))
          h.items_priced;
  }

  pub with_payment-IsPriced :
      (o : ℕ) (key : String) (amount : ℕ) → IsPriced (with_payment db o key amount)
  unfolding with_payment
  with_payment-IsPriced o key amount = record {
    events_differ = h.events_differ;
    items_priced =
        All-imp (HasPrice db.seats) (HasPrice (with_payment db o key amount).seats)
          (λ i k.
            any-update _ (λ s. s.id == i.seat_id && s.price == i.price) _ (λ s. refl) db.seats ∙ k)
          db.items h.items_priced;
  }

  pub cancel-IsPriced : (o : ℕ) → IsPriced (set_status cancelled o (delete_items o db))
  unfolding set_status delete_items
  cancel-IsPriced o = record {
    events_differ = h.events_differ;
    items_priced = All-select (HasPrice db.seats) _ db.items h.items_priced;
  }

  pub expire-IsPriced : (now : ℕ) → IsPriced (expire_overdue now db).1
  unfolding expire_overdue
  expire-IsPriced now = record {
    events_differ = h.events_differ;
    items_priced = All-select (HasPrice db.seats) _ db.items h.items_priced;
  }

  pub with_event-IsPriced :
      (e : Event) (added : List Seat)
      → any (λ x. x.id == e.id) db.events ≡ false
      → IsPriced (record db { events = e ∷ db.events; seats = added ++ db.seats })
  with_event-IsPriced e added n = record {
    events_differ = (n, h.events_differ);
    items_priced =
        All-imp (HasPrice db.seats) (HasPrice (added ++ db.seats))
          (λ i k.
            ground
              (arith, k, any-append (λ s. s.id == i.seat_id && s.price == i.price) added db.seats))
          db.items h.items_priced;
  }

  pub with_events-IsPriced :
      (p : Event → Bool) (f : Event → Event)
      → ((e : Event) → (f e).id ≡ e.id)
      → IsPriced (record db { events = update p f db.events })
  with_events-IsPriced p f e = record {
    events_differ = Distinct-update event_key p f e db.events h.events_differ;
    items_priced = h.items_priced;
  }
