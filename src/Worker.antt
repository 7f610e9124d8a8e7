-- ===== src/Worker.antt =====
-- The goroutines that `main` of api/main.go starts: `expiryWorker`, and the loop that retries
-- `ensureAdmin` until the administrator is there.
pub mod Expiry
pub mod Bootstrap
pub mod Administrator
pub mod Tests
use ticket_booking.Base.{
  ℕ, zero, suc, ◌+◌, String, Bool, Option, none, some, List, [], ◌∷◌, ltb, ◌==◌, if◌then◌else◌,
}
use ticket_booking.World.{World, Env}
use ticket_booking.Cancel.{expire_overdue_orders}

-- What the worker's `select` receives: `ctx.Done()`, or a tick, whose statement meets `Env`.
pub data Signal : Type 0 where
  stop : Signal
  tick : Env → Signal

-- What the two loops log.
pub data Line : Type 0 where
  expiry_failed : Line
  released : ℕ → Line
  admin_ok : ℕ → Line
  admin_given_up : Line

abbrev pub log_expiry : Option ℕ → List Line → List Line
log_expiry none later = expiry_failed ∷ later
log_expiry (some n) later = if ltb 0 n then released n ∷ later else later

-- The lines logged, and the state in the end; the worker waits after the last signal.
unfoldable pub expiry_worker : List Signal → World → List Line × World
expiry_worker [] w = ([], w)
expiry_worker (stop ∷ signals) w = ([], w)
expiry_worker (tick env ∷ signals) w =
    let (n, w') = expire_overdue_orders env w in
    let (lines, last) = expiry_worker signals w' in (log_expiry n lines, last)

-- `attempt` is the number of an attempt of `ensureAdmin`, in the state it meets, with its error;
-- `sleep` is what others do to the state in the two seconds after it.
module _ (attempt : ℕ → World → Bool × World) (sleep : ℕ → World → World) where
  -- for attempt := k; attempt <= 30; attempt++, with `left` rounds to go
  unfoldable pub admin_loop : ℕ → ℕ → World → List Line × World
  admin_loop zero k w = ([], w)
  admin_loop (suc left) k w =
      let (failed, w') = attempt k w in
      let (lines, last) = admin_loop left (k + 1) (sleep k w') in
      if failed
      then (if k == 30 then admin_given_up ∷ lines else lines, last)
      else (if ltb 1 k then admin_ok k ∷ [] else [], w')

  unfoldable pub bootstrap_admin : World → List Line × World
  unfolding admin_loop
  bootstrap_admin w = admin_loop 30 1 w
