-- ===== src/Spec/View.antt =====
-- How the abstract state changes with the rows of the tables.
use mathlib.Core.Bool.{not}
use ticket_booking.Base.{
  ℕ, ◌≡◌, refl, Bool, true, false, List, [], ◌∷◌, ◌++◌, map, arith, ◌==◌, ==→eq, if◌then◌else◌, any,
  select, update, Distinct,
}
use ticket_booking.Db.{Order, Item, Seat, paid, item_for}
use ticket_booking.Db.Rows.{status_of, status_of-update, has_paid, is_open}
use ticket_booking.Db.Consistent.{item_seat}
use ticket_booking.Spec.{free, sell, release, holder, view_items}

-- An order's status matters only as far as it is paid.
pub view_items-congr :
    (orders orders' : List Order)
    → ((k : ℕ) → has_paid (status_of k orders') ≡ has_paid (status_of k orders))
    → (items : List Item) (s : ℕ) → view_items orders' items s ≡ view_items orders items s
view_items-congr orders orders' h [] s = refl
view_items-congr orders orders' h (i ∷ is) s =
    ground (arith, h i.order_id, view_items-congr orders orders' h is s)

-- A seat with no item is free.
pub view_items_none :
    (orders : List Order) (items : List Item) (s : ℕ)
    → any (λ i. item_seat i == s) items ≡ false
    → view_items orders items s ≡ free
view_items_none orders [] s h = refl
view_items_none orders (i ∷ is) s h = ground (arith, view_items_none orders is s)

-- The items of a new order stand in front of the others.
pub view_items-new :
    (orders : List Order) (o : ℕ) (seats : List Seat) (items : List Item) (s : ℕ)
    → view_items orders (map (item_for o) seats ++ items) s ≡ (
        if any (λ (x : Seat). x.id == s) seats
        then holder (has_paid (status_of o orders)) o
        else view_items orders items s)
view_items-new orders o [] items s = refl
view_items-new orders o (x ∷ xs) items s = ground (arith, view_items-new orders o xs items s)

pub view_items-sell :
    (o : ℕ) (orders : List Order)
    → is_open (status_of o orders) ≡ true
    → (items : List Item) (s : ℕ)
    → view_items (update (λ r. r.id == o) (λ r. record r { status = paid }) orders) items s
      ≡ sell o (view_items orders items s)
view_items-sell o orders h [] s = refl
view_items-sell o orders h (i ∷ is) s =
    ground (arith, status_of-update paid o i.order_id orders, view_items-sell o orders h is s)

-- Where the orders of a set, none of them paid, lose their items.
pub view_items-release :
    (gone : ℕ → Bool) (orders : List Order)
    → ((k : ℕ) → gone k ≡ true → has_paid (status_of k orders) ≡ false)
    → (items : List Item) (s : ℕ) → Distinct item_seat items
    → view_items orders (select (λ i. not (gone i.order_id)) items) s
      ≡ release gone (view_items orders items s)
view_items-release gone orders h [] s d = refl
view_items-release gone orders h (i ∷ is) s (f, d) = ground (
  arith,
  f,
  h i.order_id,
  ==→eq i.seat_id s,
  view_items-release gone orders h is s d,
  view_items_none orders is s,
)
