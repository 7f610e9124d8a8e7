-- ===== src/Booking/Attempt.antt =====
-- The part of `createBooking` that the demand log watches: its guards and its transaction.
use ticket_booking.Base.{
  ℕ, ◌+◌, ◌≤◌, String, ◌≡◌, refl, some, ◌⊎◌, inl, inr, ◌∙◌, ap, subst, ◌==◌, first, length, Ends,
  Ends-bind, Ends-pure, Ends-imp, reply_lost,
}
use ticket_booking.Db.{Event, on_sale, held_now}
use ticket_booking.Redis.{put_all}
use ticket_booking.World.{
  World, success, App, Env, Uuids, read_event, run_hold, count_held, commit, booked,
}
use ticket_booking.Booking.{Request, Verdict, attempt}
use ticket_booking.Booking.Effect.{IsRefusal, Placed, Undone, Done, expires_at, book_tx-Ends}
use ticket_booking.Booking.Admission.{
  IsAdmitted, keys, Held, sale_gate-Ends, hold-Ends, hold_cap-Ends,
}

module _ (u : Uuids) (app : App) (env : Env) (user : String) where
  -- How the logged part of the handler leaves, and how it succeeds.
  abbrev pub Failed : Request → World → Verdict → World → Type 0
  Failed b w v w' =
      IsRefusal v
      × ((w'.db ≡ w.db)
          ⊎ ((env.fault commit ≡ reply_lost)
              × IsAdmitted u app env user w.db b
              × Placed u app env user b w.db w'.db))

  abbrev pub won : Request → Verdict
  won b = (success, record { status = 201; body = booked env.fresh (expires_at u app env user b) })

  abbrev pub Succeeded : Request → World → Verdict → World → Type 0
  Succeeded b w v w' =
      (v ≡ won b)
      × IsAdmitted u app env user w.db b
      × Placed u app env user b w.db w'.db
      × Held u app env user (keys u app env user b) w w'

  Undone-Failed :
      (b : Request) (w w₂ w' : World) (v : Verdict)
      → w₂.db ≡ w.db
      → IsAdmitted u app env user w.db b
      → Undone u app env user b w₂ v w'
      → Failed b w v w'
  Undone-Failed b w w₂ w' v e a (r, inl same) = (r, inl (same ∙ e))
  Undone-Failed b w w₂ w' v e a (r, inr (q, p)) =
      (r, inr (q, a, subst (λ d. Placed u app env user b d w'.db) e p))

  -- A stage that leaves with the tables as they were.
  untouched :
      (b : Request) (w w₁ : World)
      → w₁.db ≡ w.db
      → (v : Verdict) (w' : World) → IsRefusal v × (w'.db ≡ w₁.db)
      → Failed b w v w'
  untouched b w w₁ e v w' (r, s) = (r, inl (s ∙ e))

  admitted :
      (e : Event) (b : Request) (w w₂ : World)
      → first (λ e. e.id == u.value b.event_id) w.db.events ≡ some e
      → e.status ≡ on_sale
      → e.sale_opens_at ≤ env.clock read_event
      → length b.seat_ids ≤ e.max_seats_per_order
      → w₂.db ≡ w.db
      → held_now (u.value user) (env.clock count_held) w₂.db + length b.seat_ids
        ≤ app.max_held_seats
      → IsAdmitted u app env user w.db b
  admitted e b w w₂ f on opened few d quota = record {
    event = e;
    found = f;
    is_open = on;
    opened = opened;
    per_order = few;
    per_user = rw d at quota;
  }

  succeeded :
      (b : Request) (w w₁ w₂ w₃ w' : World) (expires : ℕ)
      → w₁ ≡ w
      → w₂.db ≡ w₁.db
      → Held u app env user (keys u app env user b) w₁ w₂
      → w₃ ≡ w₂
      → IsAdmitted u app env user w.db b
      → Done u app env user b w₃ expires w'
      → Succeeded b w (success, record { status = 201; body = booked env.fresh expires }) w'
  succeeded b w w₁ w₂ w₃ w' expires s₁ d₂ (free, held) s₃ a (e, p, r) = (
    rw e refl,
    a,
    subst (λ d. Placed u app env user b d w'.db)
        (ap (λ (x : World). x.db) s₃ ∙ d₂ ∙ ap (λ (x : World). x.db) s₁) p,
    (
      rw (← s₁) free,
      r
          ∙ ap (λ (x : World). x.redis) s₃
          ∙ held
          ∙ ap
              (λ (x : World).
                put_all (keys u app env user b) user app.hold_ttl (env.clock run_hold) x.redis)
              s₁,
    ),
  )

  pub attempt-Ends :
      (e : Event) (b : Request) (w : World)
      → first (λ e. e.id == u.value b.event_id) w.db.events ≡ some e
      → Ends (Failed b w) (Succeeded b w) (attempt u app env user e b w)
  unfolding attempt
  attempt-Ends e b w f =
      Ends-bind _ _ _
        (Ends-imp _ (λ v w' (r, s). (r, inl (ap (λ (x : World). x.db) s))) (λ _ w' h. h)
          (sale_gate-Ends u app env user e b w))
        λ _ w₁ (on, opened, few, s₁).
          let d₁ : w₁.db ≡ w.db = ap (λ (x : World). x.db) s₁ in
          Ends-bind _ _ _
            (Ends-imp _ (untouched b w w₁ d₁) (λ _ w' h. h)
              (hold-Ends u app env user (keys u app env user b) w₁))
            λ _ w₂ (d₂, h₂).
              Ends-bind _ _ _
                (Ends-imp _ (untouched b w w₂ (d₂ ∙ d₁)) (λ _ w' h. h)
                  (hold_cap-Ends u app env user (keys u app env user b) b w₂))
                λ _ w₃ (quota, s₃).
                  let d₃ : w₃.db ≡ w.db = ap (λ (x : World). x.db) s₃ ∙ d₂ ∙ d₁ in
                  let a : IsAdmitted u app env user w.db b =
                    admitted e b w w₂ f on opened few (d₂ ∙ d₁) quota in
                  Ends-bind _ _ _
                    (Ends-imp _ (λ v w' h. Undone-Failed b w w₃ w' v d₃ a h) (λ _ w' h. h)
                      (book_tx-Ends u app env user b (keys u app env user b) w₃))
                    λ expires w₄ h. Ends-pure (succeeded b w w₁ w₂ w₃ w₄ expires s₁ d₂ h₂ s₃ a h)
