-- ===== src/Spec.antt =====
-- What the service promises about seats, with no tables and no calls: each seat is free, held by an
-- order that is not paid yet, or sold to an order, and it changes hands in three ways only.
pub mod View
pub mod Moves
pub mod Allowed
use ticket_booking.Base.{ℕ, ◌≡◌, ◌≢◌, Bool, true, false, ◌==◌, List, [], ◌∷◌, if◌then◌else◌}
use ticket_booking.Db.{Db, Order, Item, one_of}
use ticket_booking.Db.Rows.{status_of, has_paid}

pub data Holding : Type 0 where
  free : Holding
  held sold : ℕ → Holding

abbrev pub Holdings : Type 0
Holdings = ℕ → Holding

-- The order pays: what it held is sold to it.
abbrev pub sell : ℕ → Holding → Holding
sell o (held k) = if k == o then sold k else held k
sell o free = free
sell o (sold k) = sold k

-- The orders of a set give up what they hold; what is sold stays sold.
abbrev pub release : (ℕ → Bool) → Holding → Holding
release gone (held k) = if gone k then free else held k
release gone free = free
release gone (sold k) = sold k

pub data Move (v v' : Holdings) : Type 0 where
  stays : v' ≡ v → Move v v'
  -- a new order takes seats that are all free
  reserves :
      (o : ℕ) (seats : List ℕ)
      → ((s : ℕ) → v s ≢ held o)
      → ((s : ℕ) → one_of seats s ≡ true → v s ≡ free)
      → v' ≡ (λ s. if one_of seats s then held o else v s)
      → Move v v'
  sells : (o : ℕ) → v' ≡ (λ s. sell o (v s)) → Move v v'
  frees : (gone : ℕ → Bool) → v' ≡ (λ s. release gone (v s)) → Move v v'

-- The abstract state that the tables stand for: who has the item of a seat, and has that order paid?
abbrev pub holder : Bool → ℕ → Holding
holder true o = sold o
holder false o = held o

abbrev pub view_items : List Order → List Item → Holdings
view_items orders [] s = free
view_items orders (i ∷ is) s =
    let rest = view_items orders is s in
    if i.seat_id == s then holder (has_paid (status_of i.order_id orders)) i.order_id else rest

abbrev pub view : Db → Holdings
view db = view_items db.orders db.items
