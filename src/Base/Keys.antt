-- ===== src/Base/Keys.antt =====
-- Tables whose rows have distinct keys, and what selecting, updating, inserting and deleting rows
-- does to a property of every row or of some row.
use Prim.Native.Nat.{ℕ, ◌+◌, ◌≤◌}
use mathlib.Core.Path.{◌≡◌, refl}
use mathlib.Core.Logic.{inl, inr}
use mathlib.Core.Bool.{Bool, true, false, ◌&&◌, ◌||◌}
use mathlib.Core.List.{List, [], ◌∷◌, ◌++◌, map}
use native.Mathlib.Omega.{arith}
use ticket_booking.Base.Tests.{◌==◌, Bool-cases, if◌then◌else◌}
use ticket_booking.Base.Lists.{length, select, update, any, All}

module _ {ℓ} {A : Type ℓ} where
  pub any-append : (p : A → Bool) (xs ys : List A) → any p (xs ++ ys) ≡ (any p xs || any p ys)
  any-append p [] ys = refl
  any-append p (x ∷ xs) ys = ground (arith, any-append p xs ys)

  pub any-congr : (p q : A → Bool) → ((x : A) → p x ≡ q x) → (xs : List A) → any p xs ≡ any q xs
  any-congr p q e [] = refl
  any-congr p q e (x ∷ xs) = ground (arith, e x, any-congr p q e xs)

  pub any-select_le :
      (p q : A → Bool) (xs : List A) → any q xs ≡ false → any q (select p xs) ≡ false
  any-select_le p q [] h = refl
  any-select_le p q (x ∷ xs) h = ground (arith, any-select_le p q xs)

  -- Deleting rows that do not satisfy `q` leaves `any q` as it was.
  pub any-select :
      (p q : A → Bool) (xs : List A)
      → All (λ x. p x ≡ false → q x ≡ false) xs
      → any q (select p xs) ≡ any q xs
  any-select p q [] h = refl
  any-select p q (x ∷ xs) (h, t) = ground (arith, h, any-select p q xs t)

  pub any-update :
      (p q : A → Bool) (f : A → A)
      → ((x : A) → q (f x) ≡ q x)
      → (xs : List A) → any q (update p f xs) ≡ any q xs
  any-update p q f e [] = refl
  any-update p q f e (x ∷ xs) = ground (arith, e x, any-update p q f e xs)

  pub any-map {κ} :
      {B : Type κ} (q : A → Bool) (f : B → A) (xs : List B)
      → any q (map f xs) ≡ any (λ x. q (f x)) xs
  any-map q f [] = refl
  any-map q f (x ∷ xs) = ground (arith, any-map q f xs)

  pub select-append :
      (p : A → Bool) (xs ys : List A) → select p (xs ++ ys) ≡ select p xs ++ select p ys
  select-append p [] ys = refl
  select-append p (x ∷ xs) ys = ground (arith, select-append p xs ys)

  pub any_imp :
      (p q : A → Bool)
      → ((x : A) → p x ≡ false → q x ≡ false)
      → (xs : List A) → any p xs ≡ false
      → any q xs ≡ false
  any_imp p q f [] h = refl
  any_imp p q f (x ∷ xs) h = ground (arith, f x, any_imp p q f xs)

  pub select-congr :
      (p q : A → Bool) (xs : List A) → All (λ x. p x ≡ q x) xs → select p xs ≡ select q xs
  select-congr p q [] h = refl
  select-congr p q (x ∷ xs) (h, t) = ground (arith, h, select-congr p q xs t)

  -- Two conditions that exclude each other.
  pub length-select_or :
      (p q : A → Bool) (xs : List A)
      → All (λ x. (p x && q x) ≡ false) xs
      → length (select (λ x. p x || q x) xs) ≡ length (select p xs) + length (select q xs)
  length-select_or p q [] h = omega arith
  length-select_or p q (x ∷ xs) (h, t) = ground (arith, h, length-select_or p q xs t)

  pub any_none : (q : A → Bool) (xs : List A) → All (λ x. q x ≡ false) xs → any q xs ≡ false
  any_none q [] h = refl
  any_none q (x ∷ xs) (h, t) = ground (arith, h, any_none q xs t)

  pub select_none : (q : A → Bool) (xs : List A) → All (λ x. q x ≡ false) xs → select q xs ≡ []
  select_none q [] h = refl
  select_none q (x ∷ xs) (h, t) = ground (arith, h, select_none q xs t)

pub All-map {ℓ κ μ} :
    {A : Type ℓ} {B : Type κ} (P : B → Type μ) (f : A → B)
    → ((x : A) → P (f x))
    → (xs : List A) → All P (map f xs)
All-map P f h [] = tt
All-map P f h (x ∷ xs) = (h x, All-map P f h xs)

pub All-map_of {ℓ κ μ ν} :
    {A : Type ℓ} {B : Type κ} (P : B → Type μ) (Q : A → Type ν) (f : A → B)
    → ((x : A) → Q x → P (f x))
    → (xs : List A) → All Q xs
    → All P (map f xs)
All-map_of P Q f h [] a = tt
All-map_of P Q f h (x ∷ xs) (a, t) = (h x a, All-map_of P Q f h xs t)

module _ {ℓ κ} {A : Type ℓ} (P : A → Type κ) where
  pub All-append : (xs ys : List A) → All P xs → All P ys → All P (xs ++ ys)
  All-append [] ys hx hy = hy
  All-append (x ∷ xs) ys (h, t) hy = (h, All-append xs ys t hy)

  pub All-of : ((x : A) → P x) → (xs : List A) → All P xs
  All-of f [] = tt
  All-of f (x ∷ xs) = (f x, All-of f xs)

  pub All-select : (p : A → Bool) (xs : List A) → All P xs → All P (select p xs)
  All-select p [] h = tt
  All-select p (x ∷ xs) (h, t) =
      (elim (p x) as (λ b. All P (if b then x ∷ select p xs else select p xs)) [
        | true ↦ (h, All-select p xs t)
        | false ↦ All-select p xs t
      ])

module _ {ℓ κ μ} {A : Type ℓ} (P : A → Type κ) (Q : A → Type μ) where
  pub All-imp : ((x : A) → P x → Q x) → (xs : List A) → All P xs → All Q xs
  All-imp f [] h = tt
  All-imp f (x ∷ xs) (h, t) = (f x h, All-imp f xs t)

module _ {ℓ} {A : Type ℓ} (key : A → ℕ) where
  -- No two rows have one key: a primary key, or a unique index.
  abbrev pub Distinct : List A → Type 0
  Distinct [] = Unit
  Distinct (x ∷ xs) = (any (λ y. key y == key x) xs ≡ false) × Distinct xs

  -- Every row is there under its own key.
  pub All-listed : (xs : List A) → All (λ x. any (λ y. key y == key x) xs ≡ true) xs
  All-listed [] = tt
  All-listed (x ∷ xs) = (
    ground arith,
    All-imp (λ z. any (λ y. key y == key z) xs ≡ true)
        (λ z. any (λ y. key y == key z) (x ∷ xs) ≡ true) (λ z h. ground (arith, h)) xs
        (All-listed xs),
  )

  pub no_key :
      (k : ℕ) (xs : List A)
      → any (λ y. key y == k) xs ≡ false
      → length (select (λ y. key y == k) xs) ≡ 0
  no_key k [] h = refl
  no_key k (x ∷ xs) h = ground (arith, no_key k xs)

  -- A key that is there is there once.
  pub one_key :
      (k : ℕ) (xs : List A)
      → Distinct xs
      → any (λ y. key y == k) xs ≡ true
      → length (select (λ y. key y == k) xs) ≡ 1
  one_key k [] d h = cc
  one_key k (x ∷ xs) (f, d) h = ground (arith, f, no_key k xs, one_key k xs d)

  -- At most one row has a key.
  pub at_most_one : (k : ℕ) (xs : List A) → Distinct xs → length (select (λ x. key x == k) xs) ≤ 1
  at_most_one k [] d = omega arith
  at_most_one k (x ∷ xs) (f, d) = ground (arith, f, no_key k xs, at_most_one k xs d)

  pub Distinct-select : (p : A → Bool) (xs : List A) → Distinct xs → Distinct (select p xs)
  Distinct-select p [] d = tt
  Distinct-select p (x ∷ xs) (h, d) =
      (elim (p x) as (λ b. Distinct (if b then x ∷ select p xs else select p xs)) [
        | true ↦ (any-select_le p (λ y. key y == key x) xs h, Distinct-select p xs d)
        | false ↦ Distinct-select p xs d
      ])

  pub Distinct-append :
      (xs ys : List A)
      → Distinct xs
      → Distinct ys
      → any (λ x. any (λ y. key y == key x) ys) xs ≡ false
      → Distinct (xs ++ ys)
  Distinct-append [] ys dx dy h = dy
  Distinct-append (x ∷ xs) ys (hx, dx) dy h = (
    ground (arith, any-append (λ y. key y == key x) xs ys),
    Distinct-append xs ys dx dy (ground arith),
  )

  pub Distinct-update :
      (p : A → Bool) (f : A → A)
      → ((x : A) → key (f x) ≡ key x)
      → (xs : List A) → Distinct xs
      → Distinct (update p f xs)
  Distinct-update p f e [] d = tt
  Distinct-update p f e (x ∷ xs) (h, d) = (
    ground (arith, e x, any-update p (λ y. key y == key x) f (λ y. ground (arith, e y)) xs),
    Distinct-update p f e xs d,
  )

pub Distinct-map {ℓ κ} :
    {A : Type ℓ} {B : Type κ} (kb : B → ℕ) (ka : A → ℕ) (f : A → B)
    → ((x : A) → kb (f x) ≡ ka x)
    → (xs : List A) → Distinct ka xs
    → Distinct kb (map f xs)
Distinct-map kb ka f e [] d = tt
Distinct-map kb ka f e (x ∷ xs) (h, d) = (
  ground (
    arith,
    e x,
    any-map (λ y. kb y == ka x) f xs,
    any-congr (λ y. kb (f y) == ka x) (λ y. ka y == ka x) (λ y. ground (arith, e y)) xs,
  ),
  Distinct-map kb ka f e xs d,
)

module _ {ℓ κ μ} {A : Type ℓ} (P : A → Type κ) (Q : A → Type μ) (p : A → Bool) where
  pub All-select_of :
      ((x : A) → p x ≡ true → P x → Q x) → (xs : List A) → All P xs → All Q (select p xs)
  All-select_of f [] h = tt
  All-select_of f (x ∷ xs) (h, t) = elim (Bool-cases (p x)) [
    | inl e ↦ rw e (f x e h, All-select_of f xs t)
    | inr e ↦ rw e (All-select_of f xs t)
  ]

  pub All-update_of :
      (g : A → A)
      → ((x : A) → p x ≡ true → P x → Q (g x))
      → ((x : A) → p x ≡ false → P x → Q x)
      → (xs : List A) → All P xs
      → All Q (update p g xs)
  All-update_of g f k [] h = tt
  All-update_of g f k (x ∷ xs) (h, t) = elim (Bool-cases (p x)) [
    | inl e ↦ rw e (f x e h, All-update_of g f k xs t)
    | inr e ↦ rw e (k x e h, All-update_of g f k xs t)
  ]

module _ {ℓ κ μ ν} {A : Type ℓ} (P : A → Type κ) (Q : A → Type μ) (R : A → Type ν) where
  pub All-imp₂ : ((x : A) → P x → Q x → R x) → (xs : List A) → All P xs → All Q xs → All R xs
  All-imp₂ f [] h k = tt
  All-imp₂ f (x ∷ xs) (h, t) (k, u) = (f x h k, All-imp₂ f xs t u)
