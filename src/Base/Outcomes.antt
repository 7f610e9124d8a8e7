-- ===== src/Base/Outcomes.antt =====
-- How a handler ends: what holds of its answer and state if it leaves, and of its value and state
-- if it goes on; one rule for each way to build a handler.
use mathlib.Core.Path.{◌≡◌, refl}
use mathlib.Core.Bool.{Bool, true, false}
use ticket_booking.Base.Tests.{if◌then◌else◌}
use ticket_booking.Base.Handler.{Exec, pure, Exit, next, leave, ◌>>=◌, refuse_if}

module _ {S E : Type 0} where
  abbrev pub EndsBy : {A : Type 0} → (E → S → Type 0) → (A → S → Type 0) → Exit E A × S → Type 0
  EndsBy L N (next a, s) = N a s
  EndsBy L N (leave e, s) = L e s

  pub record Ends {A : Type 0} (L : E → S → Type 0) (N : A → S → Type 0) (r : Exit E A × S)
      : Type 0 where
    pub holds : EndsBy L N r

  pub Ends-bind :
      {A B : Type 0} {L : E → S → Type 0} {N : A → S → Type 0} {N' : B → S → Type 0}
      (m : Exec S E A) (f : A → Exec S E B) (s : S)
      → Ends L N (m s)
      → ((a : A) (s' : S) → N a s' → Ends L N' (f a s'))
      → Ends L N' ((m >>= f) s)
  unfolding ◌>>=◌
  Ends-bind {A} {B} {L} {N} {N'} m f s h k = go (m s) h.holds
    where
      go :
          (r : Exit E A × S)
          → EndsBy L N r
          → Ends L N' (let (x, s') = r in elim x [ next a ↦ f a s' | leave e ↦ (leave e, s') ])
      go (next a, s') h = k a s' h
      go (leave e, s') h = record { holds = h }

  pub Ends-pure :
      {A : Type 0} {L : E → S → Type 0} {N : A → S → Type 0} {a : A} {s : S}
      → N a s
      → Ends L N (pure a s)
  Ends-pure h = record { holds = h }

  pub Ends-leave :
      {A : Type 0} {L : E → S → Type 0} {N : A → S → Type 0} {e : E} {s : S}
      → L e s
      → Ends {A = A} L N (leave e, s)
  Ends-leave h = record { holds = h }

  pub Ends-refuse_if :
      {L : E → S → Type 0} (c : Bool) (e : E) (s : S)
      → (c ≡ true → L e s)
      → Ends L (λ _ s'. (c ≡ false) × (s' ≡ s)) (refuse_if c e s)
  Ends-refuse_if true e s h = record { holds = h refl }
  Ends-refuse_if false e s h = record { holds = (refl, refl) }

  pub Ends-imp :
      {A : Type 0} {L L' : E → S → Type 0} {N N' : A → S → Type 0} (r : Exit E A × S)
      → ((e : E) (s : S) → L e s → L' e s)
      → ((a : A) (s : S) → N a s → N' a s)
      → Ends L N r
      → Ends L' N' r
  Ends-imp (next a, s) f g h = record { holds = g a s h.holds }
  Ends-imp (leave e, s) f g h = record { holds = f e s h.holds }

module _ {S E A : Type 0} {L : E → S → Type 0} {N : A → S → Type 0} where
  -- A guard, and what follows it.
  pub Ends-guard :
      (c : Bool) (e : E) (f : Unit {0} → Exec S E A) (s : S)
      → (c ≡ true → L e s)
      → (c ≡ false → Ends L N (f tt s))
      → Ends L N ((refuse_if c e >>= f) s)
  unfolding ◌>>=◌
  Ends-guard true e f s h k = record { holds = h refl }
  Ends-guard false e f s h k = k refl

-- A property of either branch.
pub if_cases {ℓ κ} :
    {A : Type ℓ} (P : A → Type κ) (c : Bool) (x y : A)
    → (c ≡ true → P x)
    → (c ≡ false → P y)
    → P (if c then x else y)
if_cases P true x y h k = h refl
if_cases P false x y h k = k refl
