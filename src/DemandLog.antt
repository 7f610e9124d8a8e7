-- ===== src/DemandLog.antt =====
-- `attemptWriter` and `insertAttempts` of api/analytics.go: the queue of attempts drained into
-- batches. `sent` answers for each INSERT of a batch whether Postgres took it.
pub mod Batches
pub mod Tests
use ticket_booking.Base.{
  ℕ, ◌+◌, Bool, true, false, List, [], ◌∷◌, ◌++◌, length, leb, ltb, if◌then◌else◌,
}
use ticket_booking.World.{Attempt}

abbrev pub max_batch : ℕ
max_batch = 200

-- What the writer's `select` receives.
pub data Signal : Type 0 where
  tick : Signal
  received : Attempt → Signal

-- The buffer, and the batches handed to `insertAttempts` so far, the last one first.
pub record Writer : Type 0 where
  pub buf : List Attempt
  pub batches : List (List Attempt)

-- The loop over the batch's results: the first error ends it.
pub insert_attempts : (Attempt → Bool) → List Attempt → Bool
insert_attempts sent [] = true
insert_attempts sent (a ∷ later) =
    let rest = insert_attempts sent later in if sent a then rest else false

-- An error of `insertAttempts` is only logged, so the buffer is emptied either way.
pub flush : Writer → Writer
flush s = if ltb 0 (length s.buf) then record { buf = []; batches = s.buf ∷ s.batches } else s

pub receive : Signal → Writer → Writer
unfolding flush
receive tick s = flush s
receive (received a) s =
    let s' : Writer = record s { buf = s.buf ++ a ∷ [] } in
    if leb max_batch (length s'.buf) then flush s' else s'

-- The signals of a run, then `ctx.Done()`.
pub attempt_writer : List Signal → Writer → Writer
unfolding flush receive
attempt_writer [] s = flush s
attempt_writer (m ∷ ms) s = attempt_writer ms (receive m s)
