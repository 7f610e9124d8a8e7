-- ===== src/Interleaved/Tests.antt =====
-- Two bookings that race for the same seat, with a payment under way: the theorems of Interleaved at it.
use ticket_booking.Base.{ℕ, ◌≤◌, ◌≡◌, refl, some, [], ◌∷◌, ◌==◌, length, select, All, fine}
use ticket_booking.Db.{is_sold}
use ticket_booking.Db.Rows.{paid_for}
use ticket_booking.Spec.{sold, view}
use ticket_booking.World.{Env}
use ticket_booking.Interleaved.{
  books, Service, Reach, here, after, asks_payment, advances, book_request, pay_request,
  cancel_request, advance, serve,
}
use ticket_booking.Interleaved.Phases.{IsPaid, IsCancelled, IsAdvanced, phase_effect}
use ticket_booking.Interleaved.Safety.{interleaved_no_oversell}
use ticket_booking.Fixture.{uuids, app, env, user, order, request, world, db-IsConsistent}

-- The other request for the same seat.
abbrev env_2 : Env
env_2 = record { fault = λ _. fine; clock = λ _. 1001; fresh = 201 }

-- Redis lost the hold of the first, so that both reach their transaction.
abbrev before : Service
before = record { world = world; jobs = books env user request ∷ books env_2 user request ∷ [] }

abbrev second_booked : Service
second_booked =
    serve (advance uuids app (books env_2 user request) before.world) (books env user request ∷ [])
      []

abbrev both_booked : Service
both_booked = serve (advance uuids app (books env user request) second_booked.world) [] []

abbrev last : Service
last = serve (pay_request uuids app env user order "key-1" both_booked.world) [] both_booked.jobs

run : Reach uuids app before last
unfolding advance
run =
    after
      (after
        (after here
          (advances (books env user request ∷ []) (books env_2 user request) [] refl refl))
        (advances [] (books env user request) [] refl refl))
      (asks_payment env user order "key-1" refl)

interleaved_no_oversell_example :
    ((k : ℕ) → length (select (λ i. i.seat_id == k) last.world.db.items) ≤ 1)
    × All
        (λ x. is_sold x.status ≡ paid_for last.world.db.orders last.world.db.items x.id)
        last.world.db.seats
    × ((o : ℕ) → length (select (λ p. p.order_id == o) last.world.db.payments) ≤ 1)
    × ((k o : ℕ) → view before.world.db k ≡ sold o → view last.world.db k ≡ sold o)
interleaved_no_oversell_example = interleaved_no_oversell uuids app db-IsConsistent run

phase_effect_example :
    ((book_request uuids app env user (some request) world).1.db ≡ world.db)
    × IsPaid uuids app world db-IsConsistent env user order "key-1"
        (pay_request uuids app env user order "key-1" world)
    × IsCancelled uuids app world db-IsConsistent env user order
        (cancel_request uuids app env user order world)
    × IsAdvanced uuids app world db-IsConsistent
        (books env user request)
        (advance uuids app (books env user request) world)
phase_effect_example =
    phase_effect uuids app world db-IsConsistent env user (some request) order "key-1"
      (books env user request)
