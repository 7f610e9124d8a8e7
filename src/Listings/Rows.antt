-- ===== src/Listings/Rows.antt =====
-- What the queries of the three lists have in common: the loop over the rows that arrive, sums and
-- counts, and ORDER BY.
use ticket_booking.Base.{
  ℕ, ◌+◌, min, String, Bool, true, ◌&&◌, Option, List, [], ◌∷◌, Fault, any, if◌then◌else◌,
}
use ticket_booking.World.{failed}
use ticket_booking.Listings.{arrived}

-- The query, the Scan of one of its rows, and how many rows arrive if the connection breaks: the
-- loop over `rows.Next()` ends then as it does after the last row.
pub record Query : Type 0 where
  pub query : Fault
  pub scan : Fault
  pub arrive : Option ℕ

pub data Page (A : Type 0) : Type 0 where
  page : List A → Page A
  denied : ℕ → String → Page A

-- The handler, from the rows that its statement yields.
unfoldable pub page_of_rows : {A : Type 0} → Query → List A → Page A
page_of_rows q rows =
    if failed q.query
    then denied 500 "db_error"
    else if failed q.scan && any (λ _. true) (arrived q.arrive rows)
    then denied 500 "db_error"
    else page (arrived q.arrive rows)

-- COALESCE(sum(f), 0)
abbrev pub sum_of : {A : Type 0} → (A → ℕ) → List A → ℕ
sum_of f [] = 0
sum_of f (x ∷ xs) = f x + sum_of f xs

-- COALESCE(min(x), 0)
abbrev pub least_from : ℕ → List ℕ → ℕ
least_from x [] = x
least_from x (y ∷ ys) = min x (least_from y ys)

abbrev pub least : List ℕ → ℕ
least [] = 0
least (x ∷ xs) = least_from x xs

-- ORDER BY: `before x y` says that x may stand in front of y.
abbrev pub insert_by : {A : Type 0} → (A → A → Bool) → A → List A → List A
insert_by before x [] = x ∷ []
insert_by before x (y ∷ ys) =
    let later = insert_by before x ys in if before x y then x ∷ y ∷ ys else y ∷ later

abbrev pub order_by : {A : Type 0} → (A → A → Bool) → List A → List A
order_by before [] = []
order_by before (x ∷ xs) = insert_by before x (order_by before xs)
