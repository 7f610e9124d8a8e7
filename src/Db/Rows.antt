-- ===== src/Db/Rows.antt =====
-- The status of an order as a lookup, and how each statement changes it and the seats that the paid
-- orders have.
use ticket_booking.Base.{
  ℕ, ◌≡◌, refl, Bool, true, false, ◌&&◌, Option, none, some, List, [], ◌∷◌, arith, ◌==◌,
  if◌then◌else◌, select, update, any, All, Distinct,
}
use ticket_booking.Db.{Order, OrderStatus, pending, paid, expired, Item, of_order, overdue}

abbrev pub status_of : ℕ → List Order → Option OrderStatus
status_of o [] = none
status_of o (r ∷ rs) = let rest = status_of o rs in if r.id == o then some r.status else rest

abbrev pub has_paid : Option OrderStatus → Bool
has_paid (some paid) = true
has_paid _ = false

-- Orders that have items: the pending and the paid ones.
abbrev pub is_active : Option OrderStatus → Bool
is_active (some paid) = true
is_active (some pending) = true
is_active _ = false

abbrev pub is_open : Option OrderStatus → Bool
is_open (some pending) = true
is_open _ = false

abbrev pub with_status : OrderStatus → Option OrderStatus → Option OrderStatus
with_status status none = none
with_status status (some _) = some status

pub status_of-update :
    (status : OrderStatus) (o k : ℕ) (rs : List Order)
    → status_of k (update (λ r. r.id == o) (λ r. record r { status = status }) rs)
      ≡ (if o == k then with_status status (status_of k rs) else status_of k rs)
status_of-update status o k [] = ground arith
status_of-update status o k (r ∷ rs) = ground (arith, status_of-update status o k rs)

pub status_of_unlisted :
    (o : ℕ) (rs : List Order) → any (λ r. r.id == o) rs ≡ false → status_of o rs ≡ none
status_of_unlisted o [] h = refl
status_of_unlisted o (r ∷ rs) h = ground (arith, status_of_unlisted o rs)

-- The expiry's UPDATE.
abbrev pub lapse : ℕ → List Order → List Order
lapse now = update (overdue now) (λ o. record o { status = expired })

-- An order that is not overdue keeps its status.
pub status_of-lapse :
    (now k : ℕ) (rs : List Order)
    → any (λ o. overdue now o && o.id == k) rs ≡ false
    → status_of k (lapse now rs) ≡ status_of k rs
status_of-lapse now k [] h = refl
status_of-lapse now k (r ∷ rs) h = ground (arith, status_of-lapse now k rs)

pub has_paid-lapse :
    (now k : ℕ) (rs : List Order)
    → has_paid (status_of k (lapse now rs)) ≡ has_paid (status_of k rs)
has_paid-lapse now k [] = refl
has_paid-lapse now k (r ∷ rs) = ground (arith, has_paid-lapse now k rs)

none_overdue :
    (now k : ℕ) (rs : List Order)
    → any (λ o. o.id == k) rs ≡ false
    → any (λ o. overdue now o && o.id == k) rs ≡ false
none_overdue now k [] h = refl
none_overdue now k (r ∷ rs) h = ground (arith, none_overdue now k rs)

-- An overdue order is pending, so it is not paid.
pub overdue_unpaid :
    (now k : ℕ) (rs : List Order)
    → Distinct (λ (o : Order). o.id) rs
    → has_paid (status_of k rs) ≡ true
    → any (λ o. overdue now o && o.id == k) rs ≡ false
overdue_unpaid now k [] d h = refl
overdue_unpaid now k (r ∷ rs) (f, d) h =
    ground (arith, overdue_unpaid now k rs d, none_overdue now k rs, f)

-- Does a paid order have the seat?
abbrev pub paid_for : List Order → List Item → ℕ → Bool
paid_for orders items s = any (λ i. i.seat_id == s && has_paid (status_of i.order_id orders)) items

-- The items of one order after the items of others have been deleted.
pub items_kept :
    (o : ℕ) (p : Item → Bool) (is : List Item)
    → All (λ i. i.order_id ≡ o → p i ≡ true) is
    → select (of_order o) (select p is) ≡ select (of_order o) is
items_kept o p [] h = refl
items_kept o p (i ∷ is) (h, t) = ground (arith, h, items_kept o p is t)

pub no_items :
    (o : ℕ) (is : List Item)
    → any (λ (i : Item). i.order_id == o) is ≡ false
    → select (of_order o) is ≡ []
no_items o [] h = refl
no_items o (i ∷ is) h = ground (arith, no_items o is)
