-- ===== src/Admin/Layout.antt =====
-- The seat map of a new event: how many seats, under which labels, at which prices.
use Prim.Native.Char.{code}
use native.Mathlib.Nat.{suc-mul}
use ticket_booking.Base.{
  ℕ, zero, suc, ◌+◌, ◌*◌, ◌≤◌, ◌≡◌, refl, ap, ◌∙◌, List, [], ◌∷◌, map, arith, length, length-map,
  length-append, ◌-◌, ◌==◌, ◌&&◌, Bool, true, String, codes, spelled, spelled-decimal_onto, decimal,
  chr, str_eq, eq_iff, Bool-cases, inl, inr, sym, select, leb, if◌then◌else◌, select-append,
  select-congr, All, All-append, All-map, All-imp,
}
use ticket_booking.Db.{available}
use ticket_booking.Admin.Tables.{Draws, Plan, label, generate_series, places, seat_at, new_seats}

length-generate_series : (n : ℕ) → length (generate_series n) ≡ n
length-generate_series zero = refl
length-generate_series (suc n) = ap suc (length-generate_series n)

pub length-places : (n m : ℕ) → length (places n m) ≡ n * m
length-places zero m = omega arith
length-places (suc n) m = omega (
  arith,
  length-append (map (λ c. (suc n, c)) (generate_series m)) (places n m),
  length-map {B = ℕ × ℕ} (λ c. (suc n, c)) (generate_series m),
  length-generate_series m,
  length-places n m,
  suc-mul n m,
)

pub length-new_seats :
    (d : Draws) (event : ℕ) (p : Plan) → length (new_seats d event p) ≡ p.rows * p.seats_per_row
length-new_seats d event p =
    length-map (seat_at d event p) (places p.rows p.seats_per_row)
    ∙ length-places p.rows p.seats_per_row

-- The row and the column that a label names.
abbrev pub read_label : String → ℕ × ℕ
read_label String.[] = (0, 0)
read_label (String.◌∷◌ c s) = (code c - 64, spelled 0 (codes s))

row_code : (r : ℕ) → r ≤ 26 → code (chr (64 + r)) - 64 ≡ r
row_code r h = ground arith

-- A label of a row from A to Z names its row and its column.
pub read_label-label : (r c : ℕ) → r ≤ 26 → read_label (label r c) ≡ (r, c)
unfolding decimal
read_label-label r c h =
    let column : spelled 0 (codes (decimal c)) ≡ c =
      spelled-decimal_onto c c String.[] (omega arith) in
    rw (row_code r h, column) refl

same_place : (r c r' c' : ℕ) → ((r == r') && (c == c')) ≡ true → label r c ≡ label r' c'
same_place r c r' c' h =
    let rows : r ≡ r' = ground (arith, h) in
    let columns : c ≡ c' = ground (arith, h) in rw (rows, columns) refl

-- Labels of two places are the same exactly if the places are.
label_iff :
    (r c r' c' : ℕ) → r ≤ 26 → r' ≤ 26 → str_eq (label r c) (label r' c') ≡ ((r == r') && (c == c'))
label_iff r c r' c' h h' = elim (Bool-cases (str_eq (label r c) (label r' c'))) [
  | inl q ↦
      let e : ◌≡◌ {A = ℕ × ℕ} (r, c) (r', c') =
        sym (read_label-label r c h)
        ∙ ap read_label ((eq_iff (label r c) (label r' c')).0 q)
        ∙ read_label-label r' c' h' in
      let rows : r ≡ r' = ap (λ (x : ℕ × ℕ). x.0) e in
      let columns : c ≡ c' = ap (λ (x : ℕ × ℕ). x.1) e in rw q (ground (arith, rows, columns))
  | inr q ↦ rw q (elim (Bool-cases ((r == r') && (c == c'))) [
    | inl p ↦ let same = (eq_iff (label r c) (label r' c')).1 (same_place r c r' c' p) in cc
    | inr p ↦ sym p
  ])
]

-- The place in a row, and in the whole layout.
row_found :
    (k r c m : ℕ)
    → select (λ x. (x.0 == r) && (x.1 == c)) (map {B = ℕ × ℕ} (λ i. (k, i)) (generate_series m))
      ≡ (if (k == r) && leb 1 c && leb c m then (r, c) ∷ [] else [])
row_found k r c zero = ground arith
row_found k r c (suc m) = ground (arith, row_found k r c m)

places_found :
    (r c n m : ℕ)
    → select (λ x. (x.0 == r) && (x.1 == c)) (places n m)
      ≡ (if leb 1 r && leb r n && leb 1 c && leb c m then (r, c) ∷ [] else [])
places_found r c zero m = ground arith
places_found r c (suc n) m =
    select-append (λ x. (x.0 == r) && (x.1 == c))
      (map {B = ℕ × ℕ} (λ i. (suc n, i)) (generate_series m)) (places n m)
    ∙ rw (row_found (suc n) r c m, places_found r c n m) (ground arith)

select-map {ℓ κ} :
    {A : Type ℓ} {B : Type κ} (p : B → Bool) (f : A → B) (xs : List A)
    → select p (map f xs) ≡ map f (select (λ x. p (f x)) xs)
select-map p f [] = refl
select-map p f (x ∷ xs) = ground (arith, select-map p f xs)

rows_within : (n m : ℕ) → All {A = ℕ × ℕ} (λ x. x.0 ≤ n) (places n m)
rows_within zero m = tt
rows_within (suc n) m =
    All-append (λ x. x.0 ≤ suc n) (map {B = ℕ × ℕ} (λ i. (suc n, i)) (generate_series m))
      (places n m)
      (All-map (λ x. x.0 ≤ suc n) (λ i. (suc n, i)) (λ i. omega arith) (generate_series m))
      (All-imp (λ x. x.0 ≤ n) (λ x. x.0 ≤ suc n) (λ x h. omega (arith, h)) (places n m)
        (rows_within n m))

-- In a layout of at most 26 rows a new event has as many seats as places, and each place has exactly
-- one seat under its label: AVAILABLE, at the premium price in the first rows and at the price in the
-- others.
pub seat_map :
    (d : Draws) (event : ℕ) (p : Plan)
    → p.rows ≤ 26
    → (length (new_seats d event p) ≡ p.rows * p.seats_per_row)
      × ((r c : ℕ)
          → 1 ≤ r
          → r ≤ p.rows
          → 1 ≤ c
          → c ≤ p.seats_per_row
          → select (λ s. str_eq s.seat_no (label r c)) (new_seats d event p)
            ≡ record {
              id = d.seat r c;
              event_id = event;
              seat_no = label r c;
              status = available;
              price = if leb r p.premium_rows then p.premium_price else p.price;
            }
              ∷ [])
seat_map d event p h = (length-new_seats d event p, one_seat)
  where
    one_seat :
        (r c : ℕ)
        → 1 ≤ r
        → r ≤ p.rows
        → 1 ≤ c
        → c ≤ p.seats_per_row
        → select (λ s. str_eq s.seat_no (label r c)) (new_seats d event p)
          ≡ seat_at d event p (r, c) ∷ []
    one_seat r c r₁ r₂ c₁ c₂ =
        let there : select (λ x. (x.0 == r) && (x.1 == c)) (places p.rows p.seats_per_row)
            ≡ (r, c) ∷ [] =
          places_found r c p.rows p.seats_per_row ∙ ground (arith, r₁, r₂, c₁, c₂) in
        select-map (λ s. str_eq s.seat_no (label r c)) (seat_at d event p)
          (places p.rows p.seats_per_row)
        ∙ ap (map (seat_at d event p)) (
            select-congr (λ x. str_eq (label x.0 x.1) (label r c)) (λ x. (x.0 == r) && (x.1 == c))
              (places p.rows p.seats_per_row)
              (All-imp (λ x. x.0 ≤ p.rows)
                (λ x. str_eq (label x.0 x.1) (label r c) ≡ ((x.0 == r) && (x.1 == c)))
                (λ x k. label_iff x.0 x.1 r c (omega (arith, k, h)) (omega (arith, r₂, h)))
                (places p.rows p.seats_per_row) (rows_within p.rows p.seats_per_row))
            ∙ there)
