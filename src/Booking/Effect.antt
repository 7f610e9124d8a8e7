-- ===== src/Booking/Effect.antt =====
-- What `createBooking` does to the tables: nothing, or it places the whole order.
use ticket_booking.Base.{
  ℕ, ◌+◌, ◌*◌, String, ◌≡◌, refl, true, false, List, ◌⊎◌, inl, inr, map, arith, ◌==◌, any, length,
  Ends, Ends-bind, Ends-pure, Ends-leave, ◌∙◌, ◌≢◌, ◌∷◌, ◌++◌, if_cases, Fault, fine, refused,
  reply_lost, next, leave,
}
use ticket_booking.Db.{
  Db, has_account, Written, rows, violation, insert_order, insert_items, taken, new_items,
}
use ticket_booking.Db.Consistent.Insert.{placed, with_booking}
use ticket_booking.World.{
  World, success, failed, App, Env, Uuids, release, commit, begin_tx, add_order, add_items,
}
use ticket_booking.Redis
use ticket_booking.World.Outcomes.{Ends-transaction}
use ticket_booking.Booking.{
  Request, db_error, conflict, unavailable, Verdict, book_rows, book_tx, give_up, insert, all_rows,
}

-- No answer but 201 is a success, nor is it logged as one.
abbrev pub IsRefusal : Verdict → Type 0
IsRefusal v = (v.0 ≢ success) × (v.1.status ≢ 201)

pub db_error-IsRefusal : IsRefusal db_error
db_error-IsRefusal = ((λ e. cc), omega arith)

pub conflict-IsRefusal : IsRefusal conflict
conflict-IsRefusal = ((λ e. cc), omega arith)

pub unavailable-IsRefusal : IsRefusal unavailable
unavailable-IsRefusal = ((λ e. cc), omega arith)

module _ (u : Uuids) (app : App) (env : Env) (user : String) (b : Request) where
  abbrev pub expires_at : ℕ
  expires_at = env.clock begin_tx + 1000 * app.hold_ttl

  abbrev seats : List ℕ
  seats = map u.value b.seat_ids

  abbrev event : ℕ
  event = u.value b.event_id

  -- The order is new, its user has an account, its seats are the requested ones, all AVAILABLE and in no order, and the
  -- tables gain the order and an item for each seat, and nothing else.
  pub record Placed (db db' : Db) : Type 0 where
    pub new_id : any (λ o. o.id == env.fresh) db.orders ≡ false
    pub known : has_account (u.value user) db.users ≡ true
    pub untaken :
        any (λ i. taken i.seat_id db.items) (new_items env.fresh seats event db.seats) ≡ false
    pub all_seats : length (new_items env.fresh seats event db.seats) ≡ length b.seat_ids
    pub effect : db' ≡ with_booking db env.fresh (u.value user) expires_at event seats

  abbrev Refused : Verdict → World → Type 0
  Refused v w = IsRefusal v

  -- The state after an INSERT that went through.
  abbrev Inserted : {A : Type 0} → (Db → Written A) → World → A → World → Type 0
  Inserted stmt w a w' =
      (stmt w.db ≡ rows a w'.db) × (w'.redis ≡ w.redis) × (w'.attempts ≡ w.attempts)

  insert-Ends :
      {A : Type 0} (keys : List String) (f : Fault) (v : Verdict) (stmt : Db → Written A)
      (w : World)
      → IsRefusal v
      → Ends Refused (Inserted stmt w) (insert u app env user keys f v stmt w)
  unfolding insert
  insert-Ends keys refused v stmt w h = Ends-leave db_error-IsRefusal
  insert-Ends keys reply_lost v stmt w h = Ends-leave db_error-IsRefusal
  insert-Ends {A} keys fine v stmt w h = go (stmt w.db) refl
    where
      go :
          (r : Written A)
          → stmt w.db ≡ r
          → Ends Refused (Inserted stmt w) (elim r [
            | rows a db ↦ (next a, record w { db = db })
            | violation ↦ give_up u app env user keys v w
          ])
      go (rows a db) e = Ends-pure (e, refl, refl)
      go violation e = Ends-leave h

  all_rows-Ends :
      (keys : List String) (n : ℕ) (w : World)
      → Ends Refused
          (λ _ w'. (n ≡ length b.seat_ids) × (w' ≡ w))
          (all_rows u app env user keys b n w)
  unfolding all_rows
  all_rows-Ends keys n w =
      if_cases (Ends Refused _) (n == length b.seat_ids) _ _
        (λ e. Ends-pure (ground (arith, e), refl)) (λ e. Ends-leave conflict-IsRefusal)

  insert_order-eq :
      (db db' : Db) (a : Unit {0})
      → insert_order env.fresh (u.value user) expires_at db ≡ rows a db'
      → (any (λ o. o.id == env.fresh) db.orders ≡ false)
        × (has_account (u.value user) db.users ≡ true)
        × (db' ≡ record db {
          orders = placed db env.fresh (u.value user) expires_at event seats ∷ db.orders;
        })
  unfolding insert_order
  insert_order-eq db db' a e = ground arith

  insert_items-eq :
      (db db' : Db) (n : ℕ)
      → insert_items env.fresh seats event db ≡ rows n db'
      → (any (λ i. taken i.seat_id db.items) (new_items env.fresh seats event db.seats) ≡ false)
        × (n ≡ length (new_items env.fresh seats event db.seats))
        × (db' ≡ record db { items = new_items env.fresh seats event db.seats ++ db.items })
  unfolding insert_items
  insert_items-eq db db' n e = ground arith

  two_inserts :
      (db db₁ db₂ : Db) (a : Unit {0}) (n : ℕ)
      → insert_order env.fresh (u.value user) expires_at db ≡ rows a db₁
      → insert_items env.fresh seats event db₁ ≡ rows n db₂
      → n ≡ length b.seat_ids
      → Placed db db₂
  two_inserts db db₁ db₂ a n e f g =
      let (new, known, o) = insert_order-eq db db₁ a e in
      let (free, m, i) = insert_items-eq db₁ db₂ n f in
      record {
        new_id = new;
        known = known;
        untaken = ground (arith, free, o);
        all_seats = ground (arith, m, o, g);
        effect = ground (arith, i, o);
      }

  book_rows-Ends :
      (keys : List String) (w : World)
      → Ends Refused
          (λ e w'. (e ≡ expires_at) × Placed w.db w'.db × (w'.redis ≡ w.redis))
          (book_rows u app env user keys b w)
  unfolding book_rows
  book_rows-Ends keys w =
      Ends-bind _ _ _
        (insert-Ends keys (env.fault add_order) db_error
          (insert_order env.fresh (u.value user) expires_at) w db_error-IsRefusal)
        λ a w₁ (e₁, r₁, _).
          Ends-bind _ _ _
            (insert-Ends keys (env.fault add_items) conflict (insert_items env.fresh seats event) w₁
              conflict-IsRefusal)
            λ n w₂ (e₂, r₂, _). Ends-bind _ _ _ (all_rows-Ends keys n w₂) λ _ w₃ (e₃, s₃).
              Ends-pure (refl, rw s₃ (two_inserts w.db w₁.db w₂.db a n e₁ e₂ e₃), rw s₃ (r₂ ∙ r₁))

  -- The transaction ends with the order placed, or with no effect; or the reply to its COMMIT is
  -- lost, and the order is placed under an error.
  abbrev pub Undone : World → Verdict → World → Type 0
  Undone w v w' =
      IsRefusal v × ((w'.db ≡ w.db) ⊎ ((env.fault commit ≡ reply_lost) × Placed w.db w'.db))

  abbrev pub Done : World → ℕ → World → Type 0
  Done w e w' = (e ≡ expires_at) × Placed w.db w'.db × (w'.redis ≡ w.redis)

  -- Giving up changes Redis alone.
  pub give_up-Ends :
      {A : Type 0} {L : Verdict → World → Type 0} (N : A → World → Type 0) (keys : List String)
      (v : Verdict) (w : World)
      → ((r : Redis.Store) → L v (record w { redis = r }))
      → Ends L N (give_up u app env user keys v w)
  unfolding give_up
  give_up-Ends {A} {L} N keys v w h =
      elim (env.fault release)
        as (λ f.
          Ends {A = A} L N (
            leave v,
            elim f [ refused ↦ w | _ ↦ record w { redis = Redis.delete keys w.redis } ],
          )) [
            | fine ↦ Ends-leave (h _)
            | refused ↦ Ends-leave (h w.redis)
            | reply_lost ↦ Ends-leave (h _)
          ]

  pub book_tx-Ends :
      (keys : List String) (w : World) → Ends (Undone w) (Done w) (book_tx u app env user keys b w)
  unfolding book_tx
  book_tx-Ends keys w =
      if_cases (Ends (Undone w) (Done w)) (failed (env.fault begin_tx)) _ _
        (λ _. give_up-Ends (Done w) keys db_error w (λ _. (db_error-IsRefusal, inl refl)))
        (λ _.
          Ends-transaction (env.fault commit) (give_up u app env user keys db_error)
            (book_rows u app env user keys b) w (book_rows-Ends keys w) (λ v w' h. (h, inl refl))
            (λ e w' h. h)
            (λ e w' h.
              give_up-Ends (Done w) keys db_error (record w' { db = w.db })
                (λ _. (db_error-IsRefusal, inl refl)))
            (λ e w' (h, p, r) q.
              give_up-Ends (Done w) keys db_error w' (λ _. (db_error-IsRefusal, inr (q, p)))))
