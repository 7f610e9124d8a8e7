-- ===== src/Booking/Answer.antt =====
-- The whole of `createBooking`: its answers and its effect on the tables.
use ticket_booking.Base.{
  String, ◌≡◌, ◌≢◌, refl, Option, ◌⊎◌, inl, inr, ap, ◌∙◌, subst, sym, if_cases, length, ltb, ◌&&◌,
  reply_lost, Exit, next, leave, Ends, EndsBy, Ends-bind, Ends-pure, Ends-imp, first, ◌==◌, some,
}
use ticket_booking.Db.{Event}
use ticket_booking.World.{World, App, Env, Uuids, Response, Attempt, booked, commit, log_attempt}
use ticket_booking.Booking.{Request, Verdict, attempt, gated, finish, create_booking}
use ticket_booking.Booking.Effect.{Placed, expires_at}
use ticket_booking.Booking.Body.{IsChecked, Rejected, check_body-Ends}
use ticket_booking.Booking.Admission.{IsAdmitted, Held, keys, find_event-Ends}
use ticket_booking.Booking.Attempt.{Failed, Succeeded, attempt-Ends}

module _ (app : App) (a : Attempt) (w : World) where
  pub db-log_attempt : (log_attempt app a w).db ≡ w.db
  unfolding log_attempt
  db-log_attempt =
      if_cases (λ (x : World). x.db ≡ w.db)
        (app.logging && ltb (length w.attempts) app.queue_capacity) _ _ (λ _. refl) (λ _. refl)

  pub redis-log_attempt : (log_attempt app a w).redis ≡ w.redis
  unfolding log_attempt
  redis-log_attempt =
      if_cases (λ (x : World). x.redis ≡ w.redis)
        (app.logging && ltb (length w.attempts) app.queue_capacity) _ _ (λ _. refl) (λ _. refl)

module _ (u : Uuids) (app : App) (env : Env) (user : String) where
  -- The answer of a booking: 201 with the order and the holds, or another answer; under another
  -- answer the order is placed only if the reply to the COMMIT was lost.
  pub data Won (w : World) (b : Request) (resp : Response) (w' : World) : Type 0 where
    answered :
        resp ≡ record { status = 201; body = booked env.fresh (expires_at u app env user b) }
        → Held u app env user (keys u app env user b) w w'
        → Won w b resp w'
    unanswered : env.fault commit ≡ reply_lost → resp.status ≢ 201 → Won w b resp w'

  abbrev pub Answered : Option Request → World → Response × World → Type 0
  Answered body w (resp, w') =
      ((resp.status ≢ 201) × (w'.db ≡ w.db))
      ⊎ ((b : Request) × IsChecked body b
          × IsAdmitted u app env user w.db b
          × Placed u app env user b w.db w'.db
          × Won w b resp w')

  pub gated-Ends :
      (body : Option Request) (w : World)
      → Ends
          (Rejected w)
          (λ be w'.
            IsChecked body be.0
            × (first (λ e. e.id == u.value be.0.event_id) w.db.events ≡ some be.1)
            × (w' ≡ w))
          (gated u app env user body w)
  gated-Ends body w = Ends-bind _ _ _ (check_body-Ends body w) λ b w₁ (c, s₁).
      Ends-bind _ _ _
        (Ends-imp _ (λ r w' (x, s). (x, s ∙ s₁)) (λ _ w' h. h)
          (find_event-Ends u app env user b w₁))
        λ e w₂ (f, s₂). Ends-pure (c, rw (← s₁) f, s₂ ∙ s₁)

  abbrev logged : Request → Verdict → Attempt
  logged b v = record {
    user_id = user;
    event_id = b.event_id;
    seat_ids = b.seat_ids;
    outcome = v.0;
  }

  finish-Answered :
      (body : Option Request) (w : World) (b : Request) (r : Exit Verdict Verdict × World)
      → IsChecked body b
      → EndsBy (Failed u app env user b w) (Succeeded u app env user b w) r
      → Answered body w (finish u app env user b r)
  finish-Answered body w b (leave v, w') c (r, inl same) =
      inl (r.1, db-log_attempt app (logged b v) w' ∙ same)
  finish-Answered body w b (leave v, w') c (r, inr (q, a, p)) = inr (
    b,
    c,
    a,
    subst (Placed u app env user b w.db) (sym (db-log_attempt app (logged b v) w')) p,
    unanswered q r.1,
  )
  finish-Answered body w b (next v, w') c (e, a, p, (free, held)) = inr (
    b,
    c,
    a,
    subst (Placed u app env user b w.db) (sym (db-log_attempt app (logged b v) w')) p,
    answered (ap (λ (x : Verdict). x.1) e) (free, redis-log_attempt app (logged b v) w' ∙ held),
  )

  -- Whatever calls fail, `createBooking` ends in one of two ways. Either the answer is not 201 and the
  -- tables are as they were. Or the request was well formed, passed the sale gate and the quotas, and
  -- its pending order is placed with one item for each requested seat, all of them free before; then
  -- the answer is 201 and all its hold keys, free before, were set, unless the reply to the COMMIT was
  -- lost, where the answer is not 201.
  pub create_booking_effect :
      (body : Option Request) (w : World) → Answered body w (create_booking u app env user body w)
  unfolding create_booking
  create_booking_effect body w = go (gated u app env user body w) (gated-Ends body w).holds
    where
      go :
          (r : Exit Response (Request × Event) × World)
          → EndsBy
              (Rejected w)
              (λ be w'.
                IsChecked body be.0
                × (first (λ e. e.id == u.value be.0.event_id) w.db.events ≡ some be.1)
                × (w' ≡ w))
              r
          → Answered body w (
              let (x, w') = r in
              elim x [
                | leave resp ↦ (resp, w')
                | next (b, e) ↦ finish u app env user b (attempt u app env user e b w')
              ])
      go (leave resp, w') (x, s) = inl (x, ap (λ (y : World). y.db) s)
      go (next (b, e), w') (c, f, s) = finish-Answered body w b (attempt u app env user e b w') c (
          subst
            (λ x.
              EndsBy (Failed u app env user b x) (Succeeded u app env user b x)
                (attempt u app env user e b w'))
            s (attempt-Ends u app env user e b w' (rw s f)).holds)
