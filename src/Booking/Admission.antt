-- ===== src/Booking/Admission.antt =====
-- The guards in front of the transaction of `createBooking`.
use ticket_booking.Base.{
  ℕ, ◌+◌, ◌≤◌, String, ◌≡◌, refl, Bool, true, false, Option, none, some, List, inl, inr, map, arith,
  ◌∙◌, ltb, ◌==◌, if◌then◌else◌, any, first, length, Ends, Ends-bind, Ends-pure, Ends-leave,
  Ends-imp, Ends-refuse_if, if_cases, Fault, fine, refused, reply_lost, leave,
}
use ticket_booking.Db.{Db, Event, on_sale, held_now}
use ticket_booking.Redis
use ticket_booking.Redis.{Store, put_all}
use ticket_booking.Redis.Laws.{hold_script_cases}
use ticket_booking.Holds.{hold_key}
use ticket_booking.World.{
  World, App, Env, Uuids, write_err, failed, read_event, run_hold, count_held, or_answer,
}
use ticket_booking.Booking.{
  Request, unavailable, db_error, find_event, sale_gate, hold, hold_cap, script_reply, script_lost,
}
use ticket_booking.Booking.Body.{Rejected}
use ticket_booking.Booking.Effect.{
  IsRefusal, give_up-Ends, db_error-IsRefusal, conflict-IsRefusal, unavailable-IsRefusal,
}

module _ (u : Uuids) (app : App) (env : Env) (user : String) where
  -- The request passes the sale gate and the quotas.
  pub record IsAdmitted (db : Db) (b : Request) : Type 0 where
    pub event : Event
    pub found : first (λ e. e.id == u.value b.event_id) db.events ≡ some event
    pub is_open : event.status ≡ on_sale
    pub opened : event.sale_opens_at ≤ env.clock read_event
    pub per_order : length b.seat_ids ≤ event.max_seats_per_order
    pub per_user :
        held_now (u.value user) (env.clock count_held) db + length b.seat_ids ≤ app.max_held_seats

  pub find_event-Ends :
      (b : Request) (w : World)
      → Ends
          (Rejected w)
          (λ e w'. (first (λ e. e.id == u.value b.event_id) w.db.events ≡ some e) × (w' ≡ w))
          (find_event u app env user b w)
  unfolding find_event
  find_event-Ends b w = go (failed (env.fault read_event)) _ refl
    where
      go :
          (c : Bool) (o : Option Event)
          → first (λ e. e.id == u.value b.event_id) w.db.events ≡ o
          → Ends
              (Rejected w)
              (λ e w'. (first (λ e. e.id == u.value b.event_id) w.db.events ≡ some e) × (w' ≡ w))
              (or_answer (if c then none else o) (write_err 404 "event_not_found") w)
      go true o e = Ends-leave (omega arith, refl)
      go false none e = Ends-leave (omega arith, refl)
      go false (some x) e = Ends-pure (e, refl)

  pub sale_gate-Ends :
      (e : Event) (b : Request) (w : World)
      → Ends
          (λ v w'. IsRefusal v × (w' ≡ w))
          (λ _ w'.
            (e.status ≡ on_sale)
            × (e.sale_opens_at ≤ env.clock read_event)
            × (length b.seat_ids ≤ e.max_seats_per_order)
            × (w' ≡ w))
          (sale_gate u app env user e b w)
  unfolding sale_gate
  sale_gate-Ends e b w =
      Ends-bind _ _ _ (Ends-refuse_if _ _ w (λ _. (((λ x. cc), omega arith), refl)))
        λ _ w₁ (e₁, s₁).
          Ends-imp _ (λ v w' h. h)
            (λ _ w' (e₂, s₂). (ground (arith, e₁), ground (arith, e₁), ground (arith, e₂), s₂ ∙ s₁))
            (Ends-refuse_if _ _ w₁ (λ _. (((λ x. cc), omega arith), s₁)))

  abbrev pub keys : Request → List String
  keys b = map (hold_key b.event_id) b.seat_ids

  -- The script found none of the keys, and set them all.
  abbrev pub Held : List String → World → World → Type 0
  Held ks w w' =
      (any (Redis.exists w.redis (env.clock run_hold)) ks ≡ false)
      × (w'.redis ≡ put_all ks user app.hold_ttl (env.clock run_hold) w.redis)

  pub hold-Ends :
      (ks : List String) (w : World)
      → Ends
          (λ v w'. IsRefusal v × (w'.db ≡ w.db))
          (λ _ w'. (w'.db ≡ w.db) × Held ks w w')
          (hold u app env user ks w)
  unfolding hold
  hold-Ends ks w = go (env.fault run_hold)
    where
      script : Option (ℕ × Store)
      script = Redis.hold_script ks user app.hold_ttl (env.clock run_hold) w.redis

      answered :
          Ends
            (λ v w'. IsRefusal v × (w'.db ≡ w.db))
            (λ _ w'. (w'.db ≡ w.db) × Held ks w w')
            (script_reply u app env user script w)
      answered = elim (hold_script_cases ks user app.hold_ttl (env.clock run_hold) w.redis) [
        | inl (e, f) ↦ rw f (Ends-leave (conflict-IsRefusal, refl))
        | inr (inl f) ↦ rw f (Ends-leave (unavailable-IsRefusal, refl))
        | inr (inr (e, f)) ↦ rw f (Ends-pure (refl, (e, refl)))
      ]

      go :
          (f : Fault)
          → Ends {A = Unit {0}}
              (λ v w'. IsRefusal v × (w'.db ≡ w.db))
              (λ _ w'. (w'.db ≡ w.db) × Held ks w w')
              (elim f [
                | fine ↦ script_reply u app env user script w
                | refused ↦ (leave unavailable, w)
                | reply_lost ↦ (leave unavailable, script_lost u app env user script w)
              ])
      go fine = answered
      go refused = Ends-leave (unavailable-IsRefusal, refl)
      go reply_lost = Ends-leave (unavailable-IsRefusal, ground arith)

  pub hold_cap-Ends :
      (ks : List String) (b : Request) (w : World)
      → Ends
          (λ v w'. IsRefusal v × (w'.db ≡ w.db))
          (λ _ w'.
            (held_now (u.value user) (env.clock count_held) w.db + length b.seat_ids
              ≤ app.max_held_seats)
            × (w' ≡ w))
          (hold_cap u app env user ks b w)
  unfolding hold_cap
  hold_cap-Ends ks b w =
      if_cases (Ends _ _) (failed (env.fault count_held)) _ _
        (λ _. give_up-Ends u app env user b _ ks db_error w (λ _. (db_error-IsRefusal, refl)))
        (λ _.
          if_cases (Ends _ _)
            (ltb app.max_held_seats
              (held_now (u.value user) (env.clock count_held) w.db + length b.seat_ids))
            _ _
            (λ _. give_up-Ends u app env user b _ ks _ w (λ _. (((λ x. cc), omega arith), refl)))
            (λ e. Ends-pure (ground (arith, e), refl)))
