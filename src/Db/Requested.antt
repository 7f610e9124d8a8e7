-- ===== src/Db/Requested.antt =====
-- Where as many seats are found as were requested, each requested seat is found.
use ticket_booking.Base.{
  ℕ, ◌+◌, ◌≡◌, refl, true, false, List, [], ◌∷◌, arith, ◌==◌, ==→eq, if◌then◌else◌, length, any,
  select, All, Distinct, inl, inr, Bool-cases, All-of, All-select_of,
}
use ticket_booking.Db.{Seat, one_of, bookable}
use ticket_booking.Db.Consistent.{seat_key}

-- Without its first occurrence.
drop_first : ℕ → List ℕ → List ℕ
drop_first k [] = []
drop_first k (x ∷ xs) = let rest = drop_first k xs in if k == x then xs else x ∷ rest

length-drop_first :
    (k : ℕ) (xs : List ℕ) → one_of xs k ≡ true → length xs ≡ length (drop_first k xs) + 1
unfolding drop_first
length-drop_first k [] h = cc
length-drop_first k (x ∷ xs) h = ground (arith, h, length-drop_first k xs)

one_of-drop_first :
    (j k : ℕ) (xs : List ℕ) → (j == k) ≡ false → one_of (drop_first k xs) j ≡ one_of xs j
unfolding drop_first
one_of-drop_first j k [] h = refl
one_of-drop_first j k (x ∷ xs) h = ground (arith, h, one_of-drop_first j k xs)

still_requested :
    (k : ℕ) (ids : List ℕ) (xs : List Seat)
    → any (λ x. seat_key x == k) xs ≡ false
    → All (λ x. one_of ids (seat_key x) ≡ true) xs
    → All (λ x. one_of (drop_first k ids) (seat_key x) ≡ true) xs
still_requested k ids [] h a = tt
still_requested k ids (x ∷ xs) h (a, t) = (
  ground (arith, h, a, one_of-drop_first x.id k ids),
  still_requested k ids xs (ground (arith, h)) t,
)

-- Distinct seats, each requested and as many as the requests, are all that was requested.
All-found :
    (xs : List Seat) (ids : List ℕ)
    → Distinct seat_key xs
    → All (λ x. one_of ids (seat_key x) ≡ true) xs
    → length xs ≡ length ids
    → (s : ℕ) → one_of ids s ≡ true
    → any (λ x. seat_key x == s) xs ≡ true
All-found [] [] d a e s h = h
All-found [] (i ∷ ids) d a e s h = absurd (omega (arith, e))
All-found (x ∷ xs) ids (f, d) (a, t) e s h = elim (Bool-cases (seat_key x == s)) [
  | inl q ↦ ground (arith, q)
  | inr q ↦ ground (
    arith,
    q,
    h,
    length-drop_first x.id ids,
    one_of-drop_first s x.id ids,
    a,
    e,
    All-found xs (drop_first x.id ids) d (still_requested x.id ids xs f t)
        (omega (arith, e, length-drop_first x.id ids a)) s,
  )
]

found_requested :
    (xs : List Seat) (ids : List ℕ) (s : ℕ)
    → All (λ x. one_of ids (seat_key x) ≡ true) xs
    → one_of ids s ≡ false
    → any (λ x. seat_key x == s) xs ≡ false
found_requested [] ids s a h = refl
found_requested (x ∷ xs) ids s (a, t) h =
    ground (arith, a, h, ==→eq x.id s, found_requested xs ids s t)

pub found_iff_requested :
    (xs : List Seat) (ids : List ℕ)
    → Distinct seat_key xs
    → All (λ x. one_of ids (seat_key x) ≡ true) xs
    → length xs ≡ length ids
    → (s : ℕ) → any (λ x. seat_key x == s) xs ≡ one_of ids s
found_iff_requested xs ids d a e s = elim (Bool-cases (one_of ids s)) [
  | inl h ↦ ground (arith, h, All-found xs ids d a e s)
  | inr h ↦ ground (arith, h, found_requested xs ids s a)
]

pub All-bookable :
    (ids : List ℕ) (event : ℕ) (xs : List Seat)
    → All (λ x. one_of ids (seat_key x) ≡ true) (select (bookable ids event) xs)
All-bookable ids event xs =
    All-select_of (λ _. Unit {0}) (λ x. one_of ids (seat_key x) ≡ true) (bookable ids event)
      (λ x e _. ground (arith, e)) xs (All-of (λ _. Unit {0}) (λ _. tt) xs)
