-- ===== src/DemandLog/Batches.antt =====
-- No attempt that was taken from the queue is lost, repeated or reordered on its way to
-- `insertAttempts`.
use ticket_booking.Base.{
  ◌≤◌, ◌<◌, ◌≡◌, refl, sym, ap, ◌∙◌, false, List, [], ◌∷◌, ◌++◌, arith, length, leb, ltb, if_cases,
  All, length-append,
}
use ticket_booking.World.{Attempt}
use ticket_booking.DemandLog.{
  Signal, tick, received, Writer, flush, receive, attempt_writer, max_batch,
}

abbrev pub taken : List Signal → List Attempt
taken [] = []
taken (tick ∷ ms) = taken ms
taken (received a ∷ ms) = a ∷ taken ms

-- The batches in the order in which they were sent, on end.
abbrev pub joined : List (List Attempt) → List Attempt
joined [] = []
joined (b ∷ bs) = joined bs ++ b

abbrev pub seen : Writer → List Attempt
seen s = joined s.batches ++ s.buf

abbrev pub IsBatch : List Attempt → Type 0
IsBatch b = (0 < length b) × (length b ≤ max_batch)

pub record IsOrderly (s : Writer) : Type 0 where
  pub room : length s.buf < max_batch
  pub sized : All IsBatch s.batches

append_assoc : {A : Type 0} (xs ys zs : List A) → xs ++ ys ++ zs ≡ xs ++ (ys ++ zs)
append_assoc [] ys zs = refl
append_assoc (x ∷ xs) ys zs = ap (λ l. x ∷ l) (append_assoc xs ys zs)

append_nil : {A : Type 0} (xs : List A) → xs ++ [] ≡ xs
append_nil [] = refl
append_nil (x ∷ xs) = ap (λ l. x ∷ l) (append_nil xs)

nothing_left : {A : Type 0} (xs : List A) → ltb 0 (length xs) ≡ false → xs ≡ []
nothing_left [] h = refl
nothing_left (x ∷ xs) h = ground (arith, h)

-- Flushing sends what is buffered, and nothing else.
record IsFlushed (s s' : Writer) : Type 0 where
  same : seen s' ≡ seen s
  empty : s'.buf ≡ []
  sent : All IsBatch s'.batches

flush_lem : (s : Writer) → length s.buf ≤ max_batch → All IsBatch s.batches → IsFlushed s (flush s)
unfolding flush
flush_lem s n h =
    if_cases (IsFlushed s) (ltb 0 (length s.buf)) _ _
      (λ e. record { same = append_nil (seen s); empty = refl; sent = ((ground (arith, e), n), h) })
      (λ e. record { same = refl; empty = nothing_left s.buf e; sent = h })

-- One signal.
record Received (m : Signal) (s s' : Writer) : Type 0 where
  kept : seen s' ≡ seen s ++ taken (m ∷ [])
  orderly : IsOrderly s'

flushed :
    {m : Signal} (s s₁ s' : Writer)
    → seen s₁ ≡ seen s ++ taken (m ∷ [])
    → IsFlushed s₁ s'
    → Received m s s'
flushed s s₁ s' e f = record {
  kept = f.same ∙ e;
  orderly = record { room = rw f.empty (omega arith); sized = f.sent };
}

receive_lem : (m : Signal) (s : Writer) → IsOrderly s → Received m s (receive m s)
unfolding receive
receive_lem tick s h =
    flushed s s (flush s) (sym (append_nil (seen s))) (flush_lem s (omega (arith, h.room)) h.sized)
receive_lem (received a) s h =
    let s₁ : Writer = record s { buf = s.buf ++ a ∷ [] } in
    let e : seen s₁ ≡ seen s ++ a ∷ [] = sym (append_assoc (joined s.batches) s.buf (a ∷ [])) in
    if_cases (Received (received a) s) (leb max_batch (length s₁.buf)) _ _
      (λ q.
        flushed s s₁ (flush s₁) e
          (flush_lem s₁ (ground (arith, h.room, length-append s.buf (a ∷ []))) h.sized))
      (λ q. record { kept = e; orderly = record { room = ground (arith, q); sized = h.sized } })

run_lem :
    (ms : List Signal) (s : Writer)
    → IsOrderly s
    → (joined (attempt_writer ms s).batches ≡ seen s ++ taken ms)
      × ((attempt_writer ms s).buf ≡ [])
      × All IsBatch (attempt_writer ms s).batches
unfolding attempt_writer
run_lem [] s h =
    let f = flush_lem s (omega (arith, h.room)) h.sized in
    (
      sym (append_nil _)
          ∙ ap (λ l. joined (flush s).batches ++ l) (sym f.empty)
          ∙ f.same
          ∙ sym (append_nil (seen s)),
      f.empty,
      f.sent,
    )
run_lem (m ∷ ms) s h =
    let r = receive_lem m s h in
    let (e, b, z) = run_lem ms (receive m s) r.orderly in
    (
      e
          ∙ ap (λ l. l ++ taken ms) r.kept
          ∙ append_assoc (seen s) (taken (m ∷ [])) (taken ms)
          ∙ ap (λ l. seen s ++ l) (one_signal m ms),
      b,
      z,
    )
  where
    one_signal : (m : Signal) (ms : List Signal) → taken (m ∷ []) ++ taken ms ≡ taken (m ∷ ms)
    one_signal tick ms = refl
    one_signal (received a) ms = refl

-- From an empty buffer until the service stops, the batches that `attemptWriter` hands over are,
-- one after the other, exactly the attempts that it took from the queue, in their order; no batch is
-- empty or longer than 200, and the buffer ends empty.
pub batches_exact :
    (ms : List Signal)
    → let s = attempt_writer ms (record { buf = []; batches = [] }) in
      (joined s.batches ≡ taken ms) × (s.buf ≡ []) × All IsBatch s.batches
batches_exact ms =
    run_lem ms (record { buf = []; batches = [] }) (record { room = omega arith; sized = tt })
