-- ===== src/Base/Handler.antt =====
-- A request handler: a computation over the shared state that goes on with a value or has already
-- answered (Go's early `return` after `writeErr`), and what may go wrong with a call of Postgres or
-- Redis.
use mathlib.Core.Bool.{Bool}
use ticket_booking.Base.Tests.{if◌then◌else◌}

-- A remote call goes through, fails with no effect, or has its effect and loses the reply.
pub data Fault : Type 0 where
  fine refused reply_lost : Fault

-- Go on with a value, or leave with an answer.
pub data Exit (E A : Type 0) : Type 0 where
  next : A → Exit E A
  leave : E → Exit E A

abbrev pub Exec : Type 0 → Type 0 → Type 0 → Type 0
Exec S E A = S → Exit E A × S

module _ {S E : Type 0} where
  abbrev pub pure : {A : Type 0} → A → Exec S E A
  pure a s = (next a, s)

  abbrev pub answer : {A : Type 0} → E → Exec S E A
  answer e s = (leave e, s)

  abbrev pub gets : {A : Type 0} → (S → A) → Exec S E A
  gets f s = (next (f s), s)

  abbrev pub modify : (S → S) → Exec S E (Unit {0})
  modify f s = (next tt, f s)

  infixl 5 ◌>>=◌ ◌>>◌
  unfoldable pub ◌>>=◌ : {A B : Type 0} → Exec S E A → (A → Exec S E B) → Exec S E B
  ◌>>=◌ m f s = let (r, s') = m s in elim r [ next a ↦ f a s' | leave e ↦ (leave e, s') ]

  abbrev pub ◌>>◌ : {A B : Type 0} → Exec S E A → Exec S E B → Exec S E B
  m >> k = m >>= λ _. k

  -- `if c { writeErr(…); return }`
  abbrev pub refuse_if : Bool → E → Exec S E (Unit {0})
  refuse_if c e s = (if c then leave e else next tt, s)
