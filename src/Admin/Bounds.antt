-- ===== src/Admin/Bounds.antt =====
-- What the guards of `createAdminEvent` leave of a body.
use native.Mathlib.Nat.{suc-mul}
use mathlib.Core.Bool.{not}
use ticket_booking.Base.{
  String, Option, some, ◌⊎◌, inl, inr, refl, sym, true, Bool-cases, str_eq, some_lem, ℕ, zero, suc,
  ◌*◌, ◌≤◌, ◌≡◌, Bool, false, arith, ltb, if◌then◌else◌, ◌||◌, ℤ, pos, negsuc, below, above, to_nat,
}
use ticket_booking.Db.{EventStatus, on_sale, closed}
use ticket_booking.Admin.Tables.{NewEvent, Plan, status_named}

mul-le : (a b c d : ℕ) → a ≤ b → c ≤ d → a * c ≤ b * d
mul-le zero b c d h k = omega arith
mul-le (suc a) zero c d h k = absurd (omega (arith, h))
mul-le (suc a) (suc b) c d h k =
    omega (arith, mul-le a b c d (omega (arith, h)) k, suc-mul a c, suc-mul b d, h, k)

-- What the guards have made sure of, field by field of the body.
pub record IsPlanned (parse_time : String → Option ℕ) (now : ℕ) (b : NewEvent) (p : Plan)
    : Type 0 where
  pub named : str_eq b.name "" ≡ false
  pub starts_then : parse_time b.starts_at ≡ some p.starts_at
  -- by default at once
  pub opens_then :
      ((str_eq b.sale_opens_at "" ≡ true) × (p.sale_opens_at ≡ now))
      ⊎ ((str_eq b.sale_opens_at "" ≡ false) × (parse_time b.sale_opens_at ≡ some p.sale_opens_at))
  -- by default on sale
  pub status_is :
      (((str_eq b.status "" ≡ true) ⊎ (str_eq b.status "ON_SALE" ≡ true)) × (p.status ≡ on_sale))
      ⊎ ((str_eq b.status "CLOSED" ≡ true) × (p.status ≡ closed))
  pub rows_are : (b.rows ≡ pos p.rows) × (1 ≤ p.rows) × (p.rows ≤ 26)
  pub columns_are :
      (b.seats_per_row ≡ pos p.seats_per_row) × (1 ≤ p.seats_per_row) × (p.seats_per_row ≤ 60)
  pub priced : (b.price.positive ≡ true) × (p.price ≡ b.price.cents)
  -- by default the price of the other rows
  pub premium_priced :
      ((b.premium_price.positive ≡ true) × (p.premium_price ≡ b.premium_price.cents))
      ⊎ ((b.premium_price.positive ≡ false) × (p.premium_price ≡ b.price.cents))
  pub premium_within : (b.premium_rows ≡ pos p.premium_rows) × (p.premium_rows ≤ p.rows)
  -- by default 4
  pub cap_is :
      ((b.max_seats_per_order ≡ pos p.max_seats_per_order)
        ⊎ ((below b.max_seats_per_order 1 ≡ true) × (p.max_seats_per_order ≡ 4)))
      × (1 ≤ p.max_seats_per_order)
      × (p.max_seats_per_order ≤ 20)

pub pos_lem : (z : ℤ) → 1 ≤ to_nat z → z ≡ pos (to_nat z)
pos_lem (pos k) h = refl
pos_lem (negsuc k) h = absurd (omega (arith, h))

pub natural_lem : (z : ℤ) (n : ℕ) → (below z 0 || above z n) ≡ false → z ≡ pos (to_nat z)
natural_lem (pos k) n h = refl
natural_lem (negsuc k) n h = cc

pub positive_lem : (b : Bool) → not b ≡ false → b ≡ true
positive_lem b h = ground (arith, h)

pub cap_lem :
    (z : ℤ) (n : ℕ)
    → (let m = if below z 1 then n else to_nat z in (z ≡ pos m) ⊎ ((below z 1 ≡ true) × (m ≡ n)))
cap_lem (pos k) n = elim (Bool-cases (below (pos k) 1)) [
  | inl q ↦ rw q (inr (refl, refl))
  | inr q ↦ rw q (inl refl)
]
cap_lem (negsuc k) n = inr (refl, refl)

pub choice_lem :
    (b : Bool) (m n : ℕ)
    → ((b ≡ true) × ((if b then m else n) ≡ m)) ⊎ ((b ≡ false) × ((if b then m else n) ≡ n))
choice_lem true m n = inl (refl, refl)
choice_lem false m n = inr (refl, refl)

pub opens_lem :
    (parse_time : String → Option ℕ) (now : ℕ) (s : String) (t : ℕ)
    → (if str_eq s "" then some now else parse_time s) ≡ some t
    → ((str_eq s "" ≡ true) × (t ≡ now)) ⊎ ((str_eq s "" ≡ false) × (parse_time s ≡ some t))
opens_lem parse_time now s t h = elim (Bool-cases (str_eq s "")) [
  | inl q ↦ inl (q, ground (arith, h, q))
  | inr q ↦ inr (q, ground (arith, h, q))
]

pub status_lem :
    (s : String) (t : EventStatus)
    → status_named (if str_eq s "" then "ON_SALE" else s) ≡ some t
    → (((str_eq s "" ≡ true) ⊎ (str_eq s "ON_SALE" ≡ true)) × (t ≡ on_sale))
      ⊎ ((str_eq s "CLOSED" ≡ true) × (t ≡ closed))
status_lem s t h = elim (Bool-cases (str_eq s "")) [
  | inl q ↦ inl (inl q, sym (some_lem (some on_sale) on_sale t refl (rw q at h)))
  | inr q ↦ elim (Bool-cases (str_eq s "ON_SALE")) [
    | inl r ↦ inl (inr r, ground (arith, h, q, r))
    | inr r ↦ elim (Bool-cases (str_eq s "CLOSED")) [
      | inl c ↦ inr (c, ground (arith, h, q, r, c))
      | inr c ↦ absurd (ground (arith, h, q, r, c))
    ]
  ]
]

-- The bounds of a side of the layout.
side_lem : (z : ℤ) (n : ℕ) → (below z 1 || above z n) ≡ false → (1 ≤ to_nat z) × (to_nat z ≤ n)
side_lem (pos k) n h = (ground (arith, h), ground (arith, h))
side_lem (negsuc k) n h = cc

pub layout_lem :
    (r c : ℤ)
    → (below r 1 || above r 26 || below c 1 || above c 60) ≡ false
    → (1 ≤ to_nat r) × (to_nat r ≤ 26) × (1 ≤ to_nat c) × (to_nat c ≤ 60)
layout_lem r c h =
    let rows : (1 ≤ to_nat r) × (to_nat r ≤ 26) = side_lem r 26 (ground (arith, h)) in
    let columns : (1 ≤ to_nat c) × (to_nat c ≤ 60) = side_lem c 60 (ground (arith, h)) in
    (rows.0, rows.1, columns.0, columns.1)

pub within_lem : (z : ℤ) (n : ℕ) → (below z 0 || above z n) ≡ false → to_nat z ≤ n
within_lem (pos k) n h = ground (arith, h)
within_lem (negsuc k) n h = omega arith

pub default_lem : (z : ℤ) (n : ℕ) → 1 ≤ n → 1 ≤ (if below z 1 then n else to_nat z)
default_lem (pos k) n h = ground (arith, h)
default_lem (negsuc k) n h = h

pub or_fst : (a b : Bool) → (a || b) ≡ false → a ≡ false
or_fst a b h = ground (arith, h)

pub or_snd : (a b : Bool) → (a || b) ≡ false → b ≡ false
or_snd a b h = ground (arith, h)

pub small_lem : (r c : ℕ) → r ≤ 26 → c ≤ 60 → ltb 2000 (r * c) ≡ false
small_lem r c h k = ground (arith, mul-le r 26 c 60 h k)
