-- ===== src/Admin/Effect.antt =====
-- The whole of `createAdminEvent`: its answers and its effect on the tables.
use ticket_booking.Base.{
  ℕ, String, ◌≡◌, ◌≢◌, refl, Bool, true, false, Option, none, some, ◌⊎◌, inl, inr, arith, ap, subst,
  ◌++◌, ◌∷◌, any, length, str_eq, reply_lost, Exit, next, leave, Ends, EndsBy, Ends-bind, Ends-pure,
  Ends-leave, Ends-guard, Exec, ◌==◌, ◌>>=◌, unless_lem, Ends-imp, to_nat,
}
use ticket_booking.Db.{Db, Event}
use ticket_booking.World.{
  World, Env, Uuids, Body, error, Response, event_created, commit, failed, reply, add_event,
  add_seats, read_clock,
}
use ticket_booking.World.Outcomes.{Ends-transaction, Ends-found}
use ticket_booking.Payment.{db_error}
use ticket_booking.Admin.Tables.{
  NewEvent, Draws, Plan, insert_event, insert_seats, new_seats, breaches, too_large,
}
use ticket_booking.Admin.Bounds.{IsPlanned, layout_lem, small_lem, or_fst, or_snd}
use ticket_booking.Admin.Planned.{planned_lem}
use ticket_booking.Admin.Asked.{IsAsked, event_of_lem}
use ticket_booking.Admin.Layout.{length-new_seats}
use ticket_booking.Admin.Handlers.{
  check_new, create_rows, create_checked, create_admin_event, event_of, store,
}

-- Is it the answer to a layout of more than 2000 seats?
abbrev pub is_too_many : Body → Bool
is_too_many (error code) = str_eq code "too_many_seats"
is_too_many _ = false

module _ (u : Uuids) (parse_time : String → Option ℕ) (env : Env) (d : Draws) where
  abbrev Refused : World → Response → World → Type 0
  Refused w resp w' = (resp.status ≢ 201) × (is_too_many resp.body ≡ false) × (w' ≡ w)

  check_new-Ends :
      (body : Option NewEvent) (w : World)
      → Ends
          (Refused w)
          (λ bp w'.
            (body ≡ some bp.0) × IsPlanned parse_time (env.clock read_clock) bp.0 bp.1 × (w' ≡ w))
          (check_new u parse_time env d body w)
  unfolding check_new
  check_new-Ends body w =
      Ends-found body _ _ w (λ _. (omega arith, refl, refl))
        λ b q.
          Ends-guard _ _ _ w (λ _. (omega arith, refl, refl))
            λ name.
              Ends-guard _ _ _ w (λ _. (omega arith, refl, refl))
                λ layout.
                  let sides = layout_lem b.rows b.seats_per_row layout in
                  Ends-guard _ _ _ w
                    (λ big. absurd (
                      ground (
                        arith,
                        big,
                        small_lem (to_nat b.rows) (to_nat b.seats_per_row) sides.1 sides.3,
                      )))
                    λ _.
                      Ends-guard _ _ _ w (λ _. (omega arith, refl, refl))
                        λ price.
                          Ends-found _ _ _ w (λ _. (omega arith, refl, refl))
                            λ starts_at starts.
                              Ends-found _ _ _ w (λ _. (omega arith, refl, refl))
                                λ sale_opens_at opens.
                                  Ends-found _ _ _ w (λ _. (omega arith, refl, refl))
                                    λ status is_status.
                                      Ends-guard _ _ _ w (λ _. (omega arith, refl, refl))
                                        λ cap.
                                          Ends-guard _ _ _ w (λ _. (omega arith, refl, refl))
                                            λ premium. Ends-pure (
                                              q,
                                              planned_lem u parse_time env d b starts_at
                                                  sale_opens_at status name starts opens is_status
                                                  sides price cap premium,
                                              refl,
                                            )

  -- The event that the body asks for and its seats are added, each under keys that are new; nothing
  -- else changes.
  pub record Created (b : NewEvent) (p : Plan) (db db' : Db) : Type 0 where
    pub event : Event
    pub asked : IsAsked u d b env.fresh p db.events event
    pub new_id : any (λ x. x.id == env.fresh) db.events ≡ false
    pub untaken : breaches (new_seats d env.fresh p) db.seats ≡ false
    pub fits : any too_large (new_seats d env.fresh p) ≡ false
    pub effect :
        db' ≡ record db { events = event ∷ db.events; seats = new_seats d env.fresh p ++ db.seats }

  -- A statement that went through.
  store-Ends :
      {A : Type 0} {L : Response → World → Type 0} {N : A → World → Type 0} (lost : Bool)
      (stmt : Db → Option Db) (f : Unit {0} → Exec World Response A) (w : World)
      → ((w' : World) → L db_error w')
      → ((db : Db) → stmt w.db ≡ some db → Ends L N (f tt (record w { db = db })))
      → Ends L N ((store u parse_time env d lost stmt >>= f) w)
  unfolding ◌>>=◌
  store-Ends true stmt f w h k = record { holds = h w }
  store-Ends {A} {L} {N} false stmt f w h k = go (stmt w.db) refl
    where
      go :
          (o : Option Db)
          → stmt w.db ≡ o
          → Ends L N (
              let (x, s') = (elim o as (λ _. Exit Response (Unit {0}) × World) [
                | none ↦ (leave db_error, w)
                | some db ↦ (next tt, record w { db = db })
              ]) in
              elim x as (λ _. Exit Response A × World) [
                | next a ↦ f a s'
                | leave e ↦ (leave e, s')
              ])
      go none e = record { holds = h w }
      go (some db) e = k db e

  abbrev Rejected : World → Response → World → Type 0
  Rejected w resp w' = (resp.status ≢ 201) × (is_too_many resp.body ≡ false)

  create_rows-Ends :
      (b : NewEvent) (p : Plan) (w : World)
      → Ends
          (Rejected w)
          (λ id w'. (id ≡ env.fresh) × Created b p w.db w'.db)
          (create_rows u parse_time env d b p w)
  unfolding create_rows insert_event insert_seats
  create_rows-Ends b p w =
      Ends-guard _ _ _ w (λ _. (omega arith, refl))
        λ series.
          store-Ends (failed (env.fault add_event)) _ _ w (λ _. (omega arith, refl))
            λ db₁ e₁.
              store-Ends (failed (env.fault add_seats)) _ _ (record w { db = db₁ })
                (λ _. (omega arith, refl))
                λ db₂ e₂.
                  let (new, put₁) = unless_lem _ _ db₁ e₁ in
                  let (free, put₂) = unless_lem _ _ db₂ e₂ in
                  Ends-pure (
                    refl,
                    record {
                      event = event_of u parse_time env d b p w.db.events;
                      asked = event_of_lem u d b parse_time env p w.db.events series;
                      new_id = new;
                      untaken =
                          subst (λ (x : Db). breaches (new_seats d env.fresh p) x.seats ≡ false)
                            put₁ (or_fst _ _ free);
                      fits = or_snd _ _ free;
                      effect = rw (put₂, put₁) refl;
                    },
                  )

  -- What the request asked for, as the handler goes on with it.
  pub record Made (body : Option NewEvent) (db db' : Db) : Type 0 where
    pub asked : NewEvent
    pub plan : Plan
    pub is_body : body ≡ some asked
    pub planned : IsPlanned parse_time (env.clock read_clock) asked plan
    pub created : Created asked plan db db'

  abbrev Left : Option NewEvent → World → Response → World → Type 0
  Left body w resp w' =
      (resp.status ≢ 201)
      × (is_too_many resp.body ≡ false)
      × ((w'.db ≡ w.db) ⊎ (Made body w.db w'.db × (env.fault commit ≡ reply_lost)))

  abbrev seats_of : Plan → ℕ
  seats_of p = length (new_seats d env.fresh p)

  abbrev Went : Option NewEvent → World → Response → World → Type 0
  Went body w resp w' =
      (m : Made body w.db w'.db) × (resp
        ≡ record { status = 201; body = event_created env.fresh (seats_of m.plan) })

  create_checked-Ends :
      (body : Option NewEvent) (w : World)
      → Ends (Left body w) (Went body w) (create_checked u parse_time env d body w)
  create_checked-Ends body w =
      Ends-bind _ _ _
        (Ends-imp _ (λ r w' (n, t, s). (n, t, inl (ap (λ (x : World). x.db) s))) (λ _ w' h. h)
          (check_new-Ends body w))
        λ bp w₁ (q, planned, s₁). rw s₁ (
          Ends-guard _ _ _ w (λ _. (omega arith, refl, inl refl))
            λ _.
              Ends-bind _ _ _
                (Ends-transaction {L' = Left body w}
                  {N' = λ id w'. (id ≡ env.fresh) × Created bp.0 bp.1 w.db w'.db} (env.fault commit)
                  (λ x. (leave db_error, x)) (create_rows u parse_time env d bp.0 bp.1) w
                  (create_rows-Ends bp.0 bp.1 w) (λ r w' (n, t). (n, t, inl refl)) (λ _ w' h. h)
                  (λ _ w' h. Ends-leave (omega arith, refl, inl refl))
                  (λ _ w' (_, c) lost. Ends-leave (
                    omega arith,
                    refl,
                    inr (
                      record {
                        asked = bp.0;
                        plan = bp.1;
                        is_body = q;
                        planned = planned;
                        created = c;
                      },
                      lost,
                    ),
                  )))
                λ id w₂ (e, c). Ends-pure (
                  record { asked = bp.0; plan = bp.1; is_body = q; planned = planned; created = c },
                  rw (e, length-new_seats d env.fresh bp.1) refl,
                ))

  -- A created event, under 201 with the number of its seats unless the reply to the COMMIT was lost;
  -- or the tables as they were, under another answer.
  abbrev pub Opened : Option NewEvent → World → Response × World → Type 0
  Opened body w (resp, w') =
      (is_too_many resp.body ≡ false)
      × (((resp.status ≢ 201) × (w'.db ≡ w.db))
          ⊎ ((m : Made body w.db w'.db) × ((resp
                  ≡ record { status = 201; body = event_created env.fresh (seats_of m.plan) })
                ⊎ ((env.fault commit ≡ reply_lost) × (resp.status ≢ 201)))))

  -- Whatever calls fail, `createAdminEvent` ends in one of two ways, and never with `too_many_seats`,
  -- since the bounds of the layout stand before. Either the answer is not 201 and the tables are as they
  -- were. Or the body passed every guard, and the event that it asks for, each column from its field or
  -- default (its name, times, status and cap, and the production that it begins or joins), is added with
  -- exactly the planned seats: 1 to 26 rows of 1 to 60 at the price, the first rows at the premium price,
  -- under keys that are new; then the answer is 201 with the number of the seats, unless the reply to
  -- the COMMIT was lost.
  pub create_admin_event_effect :
      (body : Option NewEvent) (w : World)
      → Opened body w (create_admin_event u parse_time env d body w)
  unfolding create_admin_event
  create_admin_event_effect body w =
      go (create_checked u parse_time env d body w) (create_checked-Ends body w).holds
    where
      go :
          (r : Exit Response Response × World)
          → EndsBy (Left body w) (Went body w) r
          → Opened body w (reply r)
      go (next r, w') (m, e) = (rw e refl, inr (m, inl e))
      go (leave r, w') (n, t, inl same) = (t, inl (n, same))
      go (leave r, w') (n, t, inr (m, lost)) = (t, inr (m, inr (lost, n)))
