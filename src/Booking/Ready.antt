-- ===== src/Booking/Ready.antt =====
-- The stages of `createBooking` that do not leave where the request has what it needs.
use ticket_booking.Base.{
  ℕ, ◌+◌, ◌*◌, ◌≤◌, ◌<◌, String, ◌≡◌, refl, true, false, not, Option, List, ◌∷◌, ◌++◌, map, arith,
  ltb, ◌==◌, str_eq, eq_iff, any, length, is_uuid, fine, ◌∙◌, subst, Ends, Ends-bind, Ends-pure,
  Ends-imp, Ends-refuse_if, if_cases, Bool-cases, inl, inr,
}
use ticket_booking.Db.{
  Db, has_account, Event, on_sale, new_items, taken, held_now, insert_order, insert_items, Written,
  rows, Item, pending,
}
use ticket_booking.Redis
use ticket_booking.Redis.{put_all}
use ticket_booking.World.{
  World, App, Env, Uuids, Site, run_hold, read_event, begin_tx, count_held, calm,
}
use ticket_booking.World.Outcomes.{Ends-commit}
use ticket_booking.Booking.{
  Request, Verdict, sort, check_body, sale_gate, hold, hold_cap, give_up, insert, all_rows,
  book_rows, book_tx, db_error, conflict,
}
use ticket_booking.Booking.Body.{IsChecked, length-sort, any-sort}

abbrev pub Never : {E : Type 0} → E → World → Type 0
Never e w = ⊥

not_empty : (s : String) → is_uuid s ≡ true → str_eq s "" ≡ false
unfolding is_uuid
not_empty s h = elim (Bool-cases (str_eq s "")) [
  | inl e ↦ let wrong : false ≡ true = subst (λ t. is_uuid t ≡ true) ((eq_iff s "").0 e) h in cc
  | inr e ↦ e
]

pub check_body-progress :
    (body : Option Request) (b : Request) (w : World)
    → IsChecked body b
    → Ends Never (λ b' w'. (b' ≡ b) × (w' ≡ w)) (check_body body w)
unfolding check_body
check_body-progress body b w c =
    let (ids, given, sorted) = c.given in
    rw given (
      Ends-bind _ _ _
        (Ends-refuse_if _ _ w (λ h. ground (arith, h, not_empty b.event_id c.event_is_uuid)))
        λ _ w₁ (_, s₁).
          Ends-bind _ _ _
            (Ends-refuse_if _ _ w₁
              (λ h. ground (arith, h, sorted, length-sort ids, c.some_seats, c.few_seats)))
            λ _ w₂ (_, s₂).
              Ends-bind _ _ _ (Ends-refuse_if _ _ w₂ (λ h. ground (arith, h, c.event_is_uuid)))
                λ _ w₃ (_, s₃).
                  Ends-bind _ _ _
                    (Ends-refuse_if _ _ w₃ (λ h.
                      ground
                        (arith, h, sorted, any-sort (λ s. not (is_uuid s)) ids, c.seats_are_uuids)))
                    λ _ w₄ (_, s₄). Ends-pure (with_seats b ids sorted, s₄ ∙ s₃ ∙ s₂ ∙ s₁))
  where
    with_seats :
        (b : Request) (ids : List String)
        → b.seat_ids ≡ sort ids
        → ◌≡◌ {A = Request} (record { event_id = b.event_id; seat_ids = sort ids }) b
    with_seats b ids e = rw (← e) refl

module _ (u : Uuids) (app : App) (clock : Site → ℕ) (fresh : ℕ) (user : String) where
  abbrev env : Env
  env = calm clock fresh

  abbrev seats : Request → List ℕ
  seats b = map u.value b.seat_ids

  -- What a booking needs of the tables besides its admission: an account of its user, free seats of its
  -- event, a new id.
  pub record IsFree (db : Db) (b : Request) : Type 0 where
    pub new_id : any (λ o. o.id == fresh) db.orders ≡ false
    pub known : has_account (u.value user) db.users ≡ true
    pub untaken :
        any
          (λ i. taken i.seat_id db.items)
          (new_items fresh (seats b) (u.value b.event_id) db.seats)
        ≡ false
    pub all_seats :
        length (new_items fresh (seats b) (u.value b.event_id) db.seats) ≡ length b.seat_ids

  pub sale_gate-progress :
      (e : Event) (b : Request) (w : World)
      → e.status ≡ on_sale
      → e.sale_opens_at ≤ clock read_event
      → length b.seat_ids ≤ e.max_seats_per_order
      → Ends Never (λ _ w'. w' ≡ w) (sale_gate u app env user e b w)
  unfolding sale_gate
  sale_gate-progress e b w on t n =
      Ends-bind _ _ _ (Ends-refuse_if _ _ w (λ h. ground (arith, h, on, t))) λ _ w₁ (_, s₁).
        Ends-imp _ (λ _ _ h. h) (λ _ w' (_, s₂). s₂ ∙ s₁)
          (Ends-refuse_if _ _ w₁ (λ h. ground (arith, h, n)))

  pub hold-progress :
      (ks : List String) (w : World)
      → 0 < app.hold_ttl
      → any (Redis.exists w.redis (clock run_hold)) ks ≡ false
      → Ends Never (λ _ w'. w'.db ≡ w.db) (hold u app env user ks w)
  unfolding hold Redis.hold_script
  hold-progress ks w p n =
      let lives : (app.hold_ttl == 0) ≡ false = ground (arith, p) in rw (n, lives) (Ends-pure refl)

  pub hold_cap-progress :
      (ks : List String) (b : Request) (w : World)
      → held_now (u.value user) (clock count_held) w.db + length b.seat_ids ≤ app.max_held_seats
      → Ends Never (λ _ w'. w' ≡ w) (hold_cap u app env user ks b w)
  unfolding hold_cap
  hold_cap-progress ks b w q =
      if_cases (Ends _ _)
        (ltb app.max_held_seats
          (held_now (u.value user) (clock count_held) w.db + length b.seat_ids))
        _ _ (λ h. ground (arith, h, q)) (λ _. Ends-pure refl)

  insert-progress :
      {A : Type 0} (ks : List String) (v : Verdict) (stmt : Db → Written A) (w : World) (a : A)
      (db : Db)
      → stmt w.db ≡ rows a db
      → Ends Never
          (λ a' w'. (a' ≡ a) × (w' ≡ record w { db = db }))
          (insert u app env user ks fine v stmt w)
  unfolding insert
  insert-progress ks v stmt w a db e = rw e (Ends-pure (refl, refl))

  all_rows-progress :
      (ks : List String) (b : Request) (n : ℕ) (w : World)
      → n ≡ length b.seat_ids
      → Ends Never (λ _ w'. w' ≡ w) (all_rows u app env user ks b n w)
  unfolding all_rows
  all_rows-progress ks b n w e =
      if_cases (Ends _ _) (n == length b.seat_ids) _ _ (λ _. Ends-pure refl)
        (λ h. ground (arith, h, e))

  abbrev with_order : Db → Db
  with_order db = record db {
    orders =
        record {
          id = fresh;
          user_id = u.value user;
          status = pending;
          expires_at = clock begin_tx + 1000 * app.hold_ttl;
        }
        ∷ db.orders;
  }

  abbrev wanted : Request → Db → List Item
  wanted b db = new_items fresh (seats b) (u.value b.event_id) db.seats

  order_goes_in :
      (db : Db)
      → any (λ o. o.id == fresh) db.orders ≡ false
      → has_account (u.value user) db.users ≡ true
      → insert_order fresh (u.value user) (clock begin_tx + 1000 * app.hold_ttl) db
        ≡ rows tt (with_order db)
  unfolding insert_order
  order_goes_in db n k = rw (n, k) refl

  items_go_in :
      (b : Request) (db : Db)
      → any (λ i. taken i.seat_id db.items) (wanted b db) ≡ false
      → insert_items fresh (seats b) (u.value b.event_id) db
        ≡ rows (length (wanted b db)) (record db { items = wanted b db ++ db.items })
  unfolding insert_items
  items_go_in b db n = rw n refl

  book_rows-progress :
      (ks : List String) (b : Request) (w : World)
      → IsFree w.db b
      → Ends Never
          (λ e _. e ≡ clock begin_tx + 1000 * app.hold_ttl)
          (book_rows u app env user ks b w)
  unfolding book_rows
  book_rows-progress ks b w f =
      Ends-bind _ _ _
        (insert-progress ks db_error
          (insert_order fresh (u.value user) (clock begin_tx + 1000 * app.hold_ttl)) w tt
          (with_order w.db) (order_goes_in w.db f.new_id f.known))
        λ _ w₁ (_, s₁). rw s₁ (
          Ends-bind _ _ _
            (insert-progress ks conflict (insert_items fresh (seats b) (u.value b.event_id))
              (record w { db = with_order w.db }) (length (wanted b w.db)) _
              (items_go_in b (with_order w.db) f.untaken))
            λ n w₂ (e₂, s₂).
              Ends-bind _ _ _ (all_rows-progress ks b n w₂ (e₂ ∙ f.all_seats))
                λ _ w₃ _. Ends-pure refl)

  pub book_tx-progress :
      (ks : List String) (b : Request) (w : World)
      → IsFree w.db b
      → Ends Never (λ e _. e ≡ clock begin_tx + 1000 * app.hold_ttl) (book_tx u app env user ks b w)
  unfolding book_tx
  book_tx-progress ks b w f =
      Ends-commit (give_up u app env user ks db_error) (book_rows u app env user ks b) w
        (book_rows-progress ks b w f)
