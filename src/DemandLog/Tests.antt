-- ===== src/DemandLog/Tests.antt =====
-- Two attempts with a tick between them.
use ticket_booking.Base.{◌≡◌, refl, List, [], ◌∷◌, All}
use ticket_booking.World.{Attempt, success, seat_taken}
use ticket_booking.DemandLog.{Signal, tick, received, Writer, attempt_writer, receive, flush}
use ticket_booking.DemandLog.Batches.{taken, joined, IsBatch, batches_exact}

abbrev first_attempt : Attempt
first_attempt = record { user_id = "u1"; event_id = "e"; seat_ids = "s" ∷ []; outcome = success }

abbrev second_attempt : Attempt
second_attempt = record {
  user_id = "u2";
  event_id = "e";
  seat_ids = "s" ∷ [];
  outcome = seat_taken;
}

abbrev signals : List Signal
signals = tick ∷ received first_attempt ∷ tick ∷ received second_attempt ∷ []

abbrev last : Writer
last = attempt_writer signals (record { buf = []; batches = [] })

two_batches : last.batches ≡ (second_attempt ∷ []) ∷ (first_attempt ∷ []) ∷ []
unfolding attempt_writer receive flush
two_batches = refl

batches_exact_example :
    (joined last.batches ≡ taken signals) × (last.buf ≡ []) × All IsBatch last.batches
batches_exact_example = batches_exact signals
