-- ===== src/Listings/Sums.antt =====
-- Sums over the rows of a join.
use ticket_booking.Base.{
  ℕ, zero, suc, Option, none, some, map, ◌+◌, ◌≤◌, ◌≡◌, refl, Bool, false, ◌&&◌, ◌||◌, List, [],
  ◌∷◌, arith, ◌==◌, ==→eq, any, select, All, All-of, Distinct, Bool-cases, inl, inr,
}
use ticket_booking.Listings.{take, arrived}
use ticket_booking.Listings.Rows.{sum_of, insert_by, order_by}

module _ {A : Type 0} (f : A → ℕ) where
  pub sum_of_none : (xs : List A) → sum_of f (select (λ _. false) xs) ≡ 0
  sum_of_none [] = refl
  sum_of_none (x ∷ xs) = sum_of_none xs

  pub sum_of_or :
      (p q : A → Bool) (xs : List A)
      → All (λ x. (p x && q x) ≡ false) xs
      → sum_of f (select (λ x. p x || q x) xs) ≡ sum_of f (select p xs) + sum_of f (select q xs)
  sum_of_or p q [] h = refl
  sum_of_or p q (x ∷ xs) (h, t) = ground (arith, h, sum_of_or p q xs t)

  pub sum_of-select_le : (p : A → Bool) (xs : List A) → sum_of f (select p xs) ≤ sum_of f xs
  sum_of-select_le p [] = omega arith
  sum_of-select_le p (x ∷ xs) = ground (arith, sum_of-select_le p xs)

  pub sum_of-select_congr :
      (p q : A → Bool) (xs : List A)
      → All (λ x. p x ≡ q x) xs
      → sum_of f (select p xs) ≡ sum_of f (select q xs)
  sum_of-select_congr p q [] h = refl
  sum_of-select_congr p q (x ∷ xs) (h, t) = ground (arith, h, sum_of-select_congr p q xs t)

  pub sum_of-congr : (g : A → ℕ) (xs : List A) → All (λ x. f x ≡ g x) xs → sum_of f xs ≡ sum_of g xs
  sum_of-congr g [] h = refl
  sum_of-congr g (x ∷ xs) (h, t) = ground (arith, h, sum_of-congr g xs t)

  pub sum_of-take_le : (n : ℕ) (xs : List A) → sum_of f (take n xs) ≤ sum_of f xs
  sum_of-take_le zero xs = omega arith
  sum_of-take_le (suc n) [] = omega arith
  sum_of-take_le (suc n) (x ∷ xs) = omega (arith, sum_of-take_le n xs)

  pub sum_of-arrived_le : (o : Option ℕ) (xs : List A) → sum_of f (arrived o xs) ≤ sum_of f xs
  sum_of-arrived_le none xs = omega arith
  sum_of-arrived_le (some n) xs = sum_of-take_le n xs

  sum_of-insert_by :
      (before : A → A → Bool) (x : A) (xs : List A)
      → sum_of f (insert_by before x xs) ≡ f x + sum_of f xs
  sum_of-insert_by before x [] = refl
  sum_of-insert_by before x (y ∷ ys) = ground (arith, sum_of-insert_by before x ys)

  pub sum_of-order_by :
      (before : A → A → Bool) (xs : List A) → sum_of f (order_by before xs) ≡ sum_of f xs
  sum_of-order_by before [] = refl
  sum_of-order_by before (x ∷ xs) =
      omega (arith, sum_of-insert_by before x (order_by before xs), sum_of-order_by before xs)

  pub sum_of-select_twice :
      (p q : A → Bool) (xs : List A)
      → sum_of f (select p (select q xs)) ≡ sum_of f (select q (select p xs))
  sum_of-select_twice p q [] = refl
  sum_of-select_twice p q (x ∷ xs) = ground (arith, sum_of-select_twice p q xs)

pub sum_of-map :
    {A B : Type 0} (f : B → ℕ) (g : A → B) (xs : List A)
    → sum_of f (map g xs) ≡ sum_of (λ x. f (g x)) xs
sum_of-map f g [] = refl
sum_of-map f g (x ∷ xs) = omega (arith, sum_of-map f g xs)

-- Rows of two tables joined on a key of the first: the sum of a column of the second one, by groups.
module _ {A B : Type 0} (key : A → ℕ) (k : B → ℕ) (f : B → ℕ) where
  apart :
      (x : A) (xs : List A)
      → any (λ z. key z == key x) xs ≡ false
      → (y : B) → ((k y == key x) && any (λ z. key z == k y) xs) ≡ false
  apart x xs h y = elim (Bool-cases (k y == key x)) [
    | inl e ↦ rw (==→eq (k y) (key x) e) (ground (arith, h))
    | inr e ↦ rw e refl
  ]

  sum_joined :
      (x : A) (xs : List A) (ys : List B)
      → sum_of f (select (λ y. (k y == key x) || any (λ z. key z == k y) xs) ys)
        ≡ sum_of f (select (λ y. any (λ z. key z == k y) (x ∷ xs)) ys)
  sum_joined x xs [] = refl
  sum_joined x xs (y ∷ ys) = ground (arith, sum_joined x xs ys)

  pub sum_of_join :
      (xs : List A) (ys : List B)
      → Distinct key xs
      → sum_of (λ x. sum_of f (select (λ y. k y == key x) ys)) xs
        ≡ sum_of f (select (λ y. any (λ z. key z == k y) xs) ys)
  sum_of_join [] ys d = omega (arith, sum_of_none f ys)
  sum_of_join (x ∷ xs) ys (h, d) = omega (
    arith,
    sum_of_join xs ys d,
    sum_joined x xs ys,
    sum_of_or f (λ y. k y == key x) (λ y. any (λ z. key z == k y) xs) ys
        (All-of _ (apart x xs h) ys),
  )
