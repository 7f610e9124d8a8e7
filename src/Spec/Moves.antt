-- ===== src/Spec/Moves.antt =====
-- Each change that the handlers make to consistent tables is one move of the abstract state.
use mathlib.Core.Path.{fun_ext}
use mathlib.Core.Bool.{not}
use ticket_booking.Base.{
  if◌then◌else◌, ℕ, String, ◌≡◌, ◌≢◌, ◌∙◌, true, false, ◌&&◌, none, List, [], ◌∷◌, map, arith, ◌==◌,
  ==→eq, length, any, select, All, Distinct-select, length-map, sym, inl, inr, Bool-cases,
}
use ticket_booking.Db.{
  Db, Order, Item, Seat, cancelled, item_for, bookable, new_items, one_of, taken, set_status,
  delete_items, expire_overdue, of_overdue, overdue, of_order,
}
use ticket_booking.Db.Rows.{
  status_of, status_of-update, status_of_unlisted, has_paid, is_active, is_open, lapse,
  has_paid-lapse, overdue_unpaid,
}
use ticket_booking.Db.Consistent.{IsConsistent, seat_key}
use ticket_booking.Db.Consistent.Insert.{with_booking, placed}
use ticket_booking.Db.Consistent.Pay.{with_payment}
use ticket_booking.Db.Requested.{found_iff_requested, All-bookable}
use ticket_booking.Spec.{free, held, sell, release, Move, reserves, frees, view_items, view}
use ticket_booking.Spec.View.{
  view_items-congr, view_items_none, view_items-new, view_items-sell, view_items-release,
}

-- An order that is not there holds nothing.
holds_nothing :
    (o : ℕ) (orders : List Order) (items : List Item) (s : ℕ)
    → All (λ i. is_active (status_of i.order_id orders) ≡ true) items
    → status_of o orders ≡ none
    → view_items orders items s ≢ held o
holds_nothing o orders [] s a n = λ e. cc
holds_nothing o orders (i ∷ is) s (a, t) n =
    λ e. ground (arith, a, n, e, holds_nothing o orders is s t)

untaken_seat :
    (o : ℕ) (items : List Item) (xs : List Seat) (s : ℕ)
    → any (λ i. taken i.seat_id items) (map (item_for o) xs) ≡ false
    → any (λ x. seat_key x == s) xs ≡ true
    → taken s items ≡ false
untaken_seat o items [] s h e = cc
untaken_seat o items (x ∷ xs) s h e = elim (Bool-cases (seat_key x == s)) [
  | inl q ↦ rw (← ==→eq x.id s q) (ground (arith, h))
  | inr q ↦ ground (arith, q, h, e, untaken_seat o items xs s)
]

module _ (db : Db) (v : IsConsistent db) where
  module _ (fresh user expires_at event : ℕ) (ids : List ℕ)
      (n : any (λ (o : Order). o.id == fresh) db.orders ≡ false)
      (untaken : any (λ i. taken i.seat_id db.items) (new_items fresh ids event db.seats) ≡ false)
      (all : length (new_items fresh ids event db.seats) ≡ length ids) where
    abbrev found : List Seat
    found = select (bookable ids event) db.seats

    found_requested : (s : ℕ) → any (λ x. seat_key x == s) found ≡ one_of ids s
    unfolding new_items
    found_requested =
        found_iff_requested found ids
          (Distinct-select seat_key (bookable ids event) db.seats v.seats_differ)
          (All-bookable ids event db.seats) (sym (length-map (item_for fresh) found) ∙ all)

    paid_before :
        (k : ℕ)
        → has_paid (status_of k (placed db fresh user expires_at event ids ∷ db.orders))
          ≡ has_paid (status_of k db.orders)
    paid_before k = ground (arith, n, status_of_unlisted k db.orders)

    -- The requested seats were free.
    pub free_before : (s : ℕ) → one_of ids s ≡ true → view db s ≡ free
    unfolding new_items
    free_before s h =
        view_items_none db.orders db.items s
          (untaken_seat fresh db.items found s untaken (found_requested s ∙ h))

    -- The new order holds exactly the requested seats.
    pub booking-view :
        view (with_booking db fresh user expires_at event ids)
        ≡ (λ s. if one_of ids s then held fresh else view db s)
    unfolding new_items
    booking-view = fun_ext λ s. ground (
      arith,
      view_items-new (placed db fresh user expires_at event ids ∷ db.orders) fresh found db.items s,
      view_items-congr db.orders (placed db fresh user expires_at event ids ∷ db.orders) paid_before
          db.items s,
      found_requested s,
    )

    pub booking-Move : Move (view db) (view (with_booking db fresh user expires_at event ids))
    booking-Move =
        reserves fresh ids
          (λ s.
            holds_nothing fresh db.orders db.items s v.items_active
              (status_of_unlisted fresh db.orders n))
          free_before booking-view

  module _ (o : ℕ) (h : is_open (status_of o db.orders) ≡ true) where
    -- What the order held is sold to it.
    pub payment-view :
        (key : String) (amount : ℕ)
        → view (with_payment db o key amount) ≡ (λ s. sell o (view db s))
    unfolding with_payment
    payment-view key amount = fun_ext λ s. view_items-sell o db.orders h db.items s

    -- What the order held is free.
    pub cancel-view :
        view (set_status cancelled o (delete_items o db)) ≡ (λ s. release (λ k. k == o) (view db s))
    unfolding set_status delete_items
    cancel-view = fun_ext λ s.
        view_items-congr db.orders _ unpaid (select (λ i. not (of_order o i)) db.items) s
        ∙ view_items-release (λ k. k == o) db.orders (λ k e. ground (arith, e, h)) db.items s
            v.one_item
      where
        unpaid :
            (k : ℕ)
            → has_paid (status_of k (set_status cancelled o db).orders)
              ≡ has_paid (status_of k db.orders)
        unpaid k = ground (arith, h, status_of-update cancelled o k db.orders)

  pub view-expire_overdue :
      (now s : ℕ)
      → view (expire_overdue now db).1 s
        ≡ release (λ k. any (λ o. overdue now o && o.id == k) db.orders) (view db s)
  unfolding expire_overdue
  view-expire_overdue now s =
      view_items-congr db.orders (lapse now db.orders) (λ k. has_paid-lapse now k db.orders)
        (select (λ i. not (of_overdue now db.orders i)) db.items) s
      ∙ view_items-release (λ k. any (λ o. overdue now o && o.id == k) db.orders) db.orders
          (λ k e. ground (arith, e, overdue_unpaid now k db.orders v.orders_differ)) db.items s
          v.one_item

  pub expire-Move : (now : ℕ) → Move (view db) (view (expire_overdue now db).1)
  expire-Move now =
      frees (λ k. any (λ o. overdue now o && o.id == k) db.orders)
        (fun_ext (view-expire_overdue now))
