-- ===== src/Booking.antt =====
-- `createBooking` of api/handlers.go. A request's body is `none` where `decodeJSON` fails.
pub mod Effect
pub mod Body
pub mod Admission
pub mod Attempt
pub mod Answer
pub mod Ready
pub mod Progress
pub mod Tests
use Prim.Native.String.{compare, ◌++◌ as text_append}
use Prim.Native.Nat.{Ordering}
use ticket_booking.Base.{
  ℕ, ◌+◌, ◌*◌, String, Bool, true, false, ◌||◌, not, Option, none, some, List, [], ◌∷◌, map, ltb,
  ◌==◌, str_eq, if◌then◌else◌, length, any, first, is_uuid, Fault, fine, refused, reply_lost, Exec,
  Exit, next, leave, pure, answer, ◌>>=◌, ◌>>◌, refuse_if,
}
use ticket_booking.Db.{
  Db, Event, is_on_sale, Written, rows, violation, insert_order, insert_items, held_now,
}
use ticket_booking.Redis
use ticket_booking.Redis.{Store}
use ticket_booking.Holds.{hold_key}
use ticket_booking.World.{
  World, App, Env, Uuids, Outcome, success, seat_taken, sale_not_open, too_many_seats, hold_limit,
  error, Response, write_err, booked, run_hold, read_event, release, count_held, begin_tx,
  add_order, add_items, commit, failed, or_answer, transaction, log_attempt,
}

pub record Request : Type 0 where
  pub event_id : String
  pub seat_ids : List String

-- The response and the outcome for the demand log.
abbrev pub Verdict : Type 0
Verdict = Outcome × Response

abbrev str_le : String → String → Bool
str_le a b = elim (compare a b) [ Ordering.gt ↦ false | _ ↦ true ]

pub insert_sorted : String → List String → List String
insert_sorted x [] = x ∷ []
insert_sorted x (y ∷ ys) =
    let later = insert_sorted x ys in if str_le x y then x ∷ y ∷ ys else y ∷ later

-- `sort.Strings`
pub sort : List String → List String
unfolding insert_sorted
sort [] = []
sort (x ∷ xs) = insert_sorted x (sort xs)

pub check_body : Option Request → Exec World Response Request
check_body none = answer (write_err 400 "bad_request")
check_body (some b) = do
  refuse_if (str_eq b.event_id "") (write_err 400 "bad_request")
  refuse_if (ltb (length b.seat_ids) 1 || ltb 20 (length b.seat_ids))
      (write_err 400 "seat_count_out_of_range")
  refuse_if (not (is_uuid b.event_id)) (write_err 400 "bad_event_id")
  refuse_if (any (λ s. not (is_uuid s)) b.seat_ids) (write_err 400 "bad_seat_id")
  pure (record b { seat_ids = sort b.seat_ids })

abbrev pub unavailable : Verdict
unavailable = (error, write_err 503 "booking_unavailable")

abbrev pub conflict : Verdict
conflict = (seat_taken, write_err 409 "seat_taken")

abbrev pub db_error : Verdict
db_error = (error, write_err 500 "db_error")

module _ (u : Uuids) (app : App) (env : Env) (user : String) where
  -- SELECT sale_opens_at, status, max_seats_per_order FROM events WHERE id = $1
  pub find_event : Request → Exec World Response Event
  find_event b w =
      let found = first (λ e. e.id == u.value b.event_id) w.db.events in
      or_answer (if failed (env.fault read_event) then none else found)
        (write_err 404 "event_not_found") w

  pub sale_gate : Event → Request → Exec World Verdict (Unit {0})
  sale_gate e b = do
    refuse_if (not (is_on_sale e.status) || ltb (env.clock read_event) e.sale_opens_at)
        (sale_not_open, write_err 403 "sale_not_open")
    refuse_if (ltb e.max_seats_per_order (length b.seat_ids))
        (too_many_seats, write_err 400 "seat_count_exceeds_limit")

  -- Layer 1: `holdScript.Run`.
  abbrev pub held_by_script : List String → World → Option (ℕ × Store)
  held_by_script keys w = Redis.hold_script keys user app.hold_ttl (env.clock run_hold) w.redis

  abbrev pub script_reply : Option (ℕ × Store) → Exec World Verdict (Unit {0})
  script_reply none w = (leave unavailable, w)
  script_reply (some (ok, r)) w =
      (if ok == 0 then leave conflict else next tt, record w { redis = r })

  abbrev pub script_lost : Option (ℕ × Store) → World → World
  script_lost none w = w
  script_lost (some (ok, r)) w = record w { redis = r }

  pub hold : List String → Exec World Verdict (Unit {0})
  hold keys w = elim (env.fault run_hold) [
    | fine ↦ script_reply (held_by_script keys w) w
    | refused ↦ (leave unavailable, w)
    | reply_lost ↦ (leave unavailable, script_lost (held_by_script keys w) w)
  ]

  -- `releaseHolds`; its error is ignored.
  abbrev release_holds : List String → World → World
  release_holds keys w = elim (env.fault release) [
    | refused ↦ w
    | _ ↦ record w { redis = Redis.delete keys w.redis }
  ]

  -- `releaseHolds(); outcome = …; writeErr(…); return`
  pub give_up : List String → Verdict → {A : Type 0} → Exec World Verdict A
  give_up keys v w = (leave v, release_holds keys w)

  pub hold_cap : List String → Request → Exec World Verdict (Unit {0})
  unfolding give_up
  hold_cap keys b w =
      if failed (env.fault count_held)
      then give_up keys db_error w
      else if ltb app.max_held_seats
          (held_now (u.value user) (env.clock count_held) w.db + length b.seat_ids)
      then give_up keys (hold_limit, write_err 429 "hold_limit_exceeded") w
      else (next tt, w)

  -- An INSERT of the transaction: its error, and what a breach of a constraint is answered with.
  pub insert :
      {A : Type 0} → List String → Fault → Verdict → (Db → Written A) → Exec World Verdict A
  unfolding give_up
  insert keys f on_violation stmt w =
      if failed f then give_up keys db_error w else elim (stmt w.db) [
        | rows a db ↦ (next a, record w { db = db })
        | violation ↦ give_up keys on_violation w
      ]

  pub all_rows : List String → Request → ℕ → Exec World Verdict (Unit {0})
  unfolding give_up
  all_rows keys b n w = if n == length b.seat_ids then (next tt, w) else give_up keys conflict w

  -- Layer 2: the pending order and its items.
  pub book_rows : List String → Request → Exec World Verdict ℕ
  unfolding insert all_rows
  book_rows keys b = do
    let expires_at = env.clock begin_tx + 1000 * app.hold_ttl
    insert keys (env.fault add_order) db_error (insert_order env.fresh (u.value user) expires_at)
    n ←
        insert keys (env.fault add_items) conflict
          (insert_items env.fresh (map u.value b.seat_ids) (u.value b.event_id))
    all_rows keys b n
    pure expires_at

  pub book_tx : List String → Request → Exec World Verdict ℕ
  unfolding give_up
  book_tx keys b w =
      if failed (env.fault begin_tx)
      then give_up keys db_error w
      else transaction (env.fault commit) (give_up keys db_error) (book_rows keys b) w

  -- The part of the handler that the demand log watches.
  unfoldable pub attempt : Event → Request → Exec World Verdict Verdict
  attempt e b = do
    let keys = map (hold_key b.event_id) b.seat_ids
    sale_gate e b
    hold keys
    hold_cap keys b
    expires_at ← book_tx keys b
    pure (success, record { status = 201; body = booked env.fresh expires_at })

  abbrev pub verdict : Exit Verdict Verdict → Verdict
  verdict (next v) = v
  verdict (leave v) = v

  -- The deferred `logAttempt`.
  abbrev pub finish : Request → Exit Verdict Verdict × World → Response × World
  finish b (r, w) =
      let v = verdict r in
      (
        v.1,
        log_attempt app
            (record { user_id = user; event_id = b.event_id; seat_ids = b.seat_ids; outcome = v.0 })
            w,
      )

  abbrev pub gated : Option Request → Exec World Response (Request × Event)
  gated body = do b ← check_body body; e ← find_event b; pure (b, e)

  unfoldable pub create_booking : Option Request → World → Response × World
  create_booking body w =
      let (r, w') = gated body w in
      elim r [ leave resp ↦ (resp, w') | next (b, e) ↦ finish b (attempt e b w') ]
