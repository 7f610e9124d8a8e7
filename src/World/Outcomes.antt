-- ===== src/World/Outcomes.antt =====
-- The rule for a transaction.
use ticket_booking.Base.{
  ◌≡◌, refl, Fault, fine, refused, reply_lost, Exec, Option, none, some, ◌>>=◌, Exit, next, leave,
  Ends, EndsBy,
}
use ticket_booking.World.{World, transaction, or_answer}

-- A body that leaves is rolled back; one that goes on is committed, or its commit fails with the
-- rows of before or of after.
pub Ends-transaction :
    {E A : Type 0} {L L' : E → World → Type 0} {N N' : A → World → Type 0} (outcome : Fault)
    (on_error m : Exec World E A) (w : World)
    → Ends L N (m w)
    → ((e : E) (w' : World) → L e w' → L' e (record w' { db = w.db }))
    → ((a : A) (w' : World) → N a w' → N' a w')
    → ((a : A) (w' : World) → N a w' → Ends L' N' (on_error (record w' { db = w.db })))
    → ((a : A) (w' : World) → N a w' → outcome ≡ reply_lost → Ends L' N' (on_error w'))
    → Ends L' N' (transaction outcome on_error m w)
Ends-transaction {E} {A} {L} {L'} {N} {N'} outcome on_error m w h left went back lost =
    go (m w) outcome refl h.holds
  where
    go :
        (r : Exit E A × World) (o : Fault)
        → outcome ≡ o
        → EndsBy L N r
        → Ends L' N' (transaction o on_error (λ _. r) w)
    go (leave e, w') o q h = record { holds = left e w' h }
    go (next a, w') fine q h = record { holds = went a w' h }
    go (next a, w') refused q h = back a w' h
    go (next a, w') reply_lost q h = lost a w' h q

-- A body that does not leave is committed, where the COMMIT goes through.
pub Ends-commit :
    {E A : Type 0} {N : A → World → Type 0} (on_error m : Exec World E A) (w : World)
    → Ends (λ _ _. ⊥) N (m w)
    → Ends (λ _ _. ⊥) N (transaction fine on_error m w)
Ends-commit {E} {A} {N} on_error m w h = go (m w) h.holds
  where
    go :
        (r : Exit E A × World)
        → EndsBy (λ _ _. ⊥) N r
        → Ends (λ _ _. ⊥) N (transaction fine on_error (λ _. r) w)
    go (leave e, w') h = absurd h
    go (next a, w') h = record { holds = h }

-- A value that may be missing, and what follows it.
pub Ends-found :
    {E A B : Type 0} {L : E → World → Type 0} {N : B → World → Type 0} (o : Option A) (e : E)
    (f : A → Exec World E B) (w : World)
    → (o ≡ none → L e w)
    → ((a : A) → o ≡ some a → Ends L N (f a w))
    → Ends L N ((or_answer o e >>= f) w)
unfolding ◌>>=◌
Ends-found none e f w h k = record { holds = h refl }
Ends-found (some a) e f w h k = k a refl
