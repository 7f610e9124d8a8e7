-- ===== src/World.antt =====
-- The state that the handlers of package main share: Postgres, Redis and the demand-log channel;
-- a response; the settings of the `app` struct of api/main.go that the handlers read.
pub mod Outcomes
use ticket_booking.Base.{
  ℕ, String, Bool, true, false, ◌&&◌, List, [], ◌∷◌, ◌++◌, Fault, fine, refused, reply_lost, Exec,
  Exit, next, leave, Option, none, some, ltb, length, if◌then◌else◌,
}
use ticket_booking.Db.{Db, PaymentStatus}
use ticket_booking.Redis.{Store}

-- `bookingAttempt.outcome` of api/analytics.go
pub data Outcome : Type 0 where
  success seat_taken sale_not_open too_many_seats hold_limit error : Outcome

-- `bookingAttempt` of api/analytics.go
pub record Attempt : Type 0 where
  pub user_id : String
  pub event_id : String
  pub seat_ids : List String
  pub outcome : Outcome

pub record World : Type 0 where
  pub db : Db
  pub redis : Store
  pub attempts : List Attempt

-- The bodies that the booking handlers write.
pub data Body : Type 0 where
  error : String → Body
  booked : ℕ → ℕ → Body
  replayed : String → PaymentStatus → Body
  already_paid : String → Body
  charged : String → ℕ → Body
  order_cancelled : String → Body
  event_created : ℕ → ℕ → Body
  event_updated : String → Body

-- `writeJSON`, and `writeErr` for a body `error`
pub record Response : Type 0 where
  pub status : ℕ
  pub body : Body

abbrev pub write_err : ℕ → String → Response
write_err status code = record { status = status; body = Body.error code }

pub record App : Type 0 where
  pub hold_ttl : ℕ
  pub max_held_seats : ℕ
  pub logging : Bool
  pub queue_capacity : ℕ

-- What the handlers rely on of Postgres's uuid type: reading a text and printing a value.
pub record Uuids : Type 0 where
  pub value : String → ℕ
  pub text : ℕ → String

-- The calls of Postgres, of Redis and of the clock that the handlers make.
pub data Site : Type 0 where
  read_event run_hold release count_held begin_tx add_order add_items commit : Site
  find_payment lock_order count_items confirm sum_items add_payment set_paid clear_holds : Site
  list_keys drop_items set_cancelled expire : Site
  read_clock add_event add_seats patch_event : Site

-- What one request meets: the fate of each call, the time at which it is made, and the id that
-- `gen_random_uuid()` draws.
pub record Env : Type 0 where
  pub fault : Site → Fault
  pub clock : Site → ℕ
  pub fresh : ℕ

-- A request none of whose calls fails.
abbrev pub calm : (Site → ℕ) → ℕ → Env
calm clock fresh = record { fault = λ _. fine; clock = clock; fresh = fresh }

abbrev pub failed : Fault → Bool
failed fine = false
failed refused = true
failed reply_lost = true

module _ {E A : Type 0} where
  abbrev pub or_answer : Option A → E → Exec World E A
  or_answer none e w = (leave e, w)
  or_answer (some a) e w = (next a, w)

  -- `tx, err := db.Begin(…); defer tx.Rollback(…); …; tx.Commit(…)`: a handler that leaves rolls
  -- back, and a failed commit goes on to `on_error` in the state that the server is left in.
  abbrev pub transaction : Fault → Exec World E A → Exec World E A → Exec World E A
  transaction outcome on_error m w =
      let (r, w') = m w in
      let rolled_back = record w' { db = w.db } in
      elim r [
        | leave e ↦ (leave e, rolled_back)
        | next a ↦ elim outcome [
          | fine ↦ (next a, w')
          | refused ↦ on_error rolled_back
          | reply_lost ↦ on_error w'
        ]
      ]

-- What a handler that leaves early, or does not, has answered in the end.
abbrev pub reply : Exit Response Response × World → Response × World
reply (next r, w) = (r, w)
reply (leave r, w) = (r, w)

-- `logAttempt` of api/analytics.go: a full channel drops the record.
unfoldable pub log_attempt : App → Attempt → World → World
log_attempt app a w =
    if app.logging && ltb (length w.attempts) app.queue_capacity
    then record w { attempts = w.attempts ++ a ∷ [] }
    else w
