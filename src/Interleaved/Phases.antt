-- ===== src/Interleaved/Phases.antt =====
-- What one phase of a request does to the seats, in the words of the specification: the phases of
-- Interleaved, whose code is that of `createBooking`, `payOrder` and `cancelOrder`.
use ticket_booking.Base.{
  ℕ, String, ◌≡◌, ◌≢◌, refl, ap, ◌∙◌, sym, map, length-map, true, ◌==◌, ◌⊎◌, inl, inr, Option, List,
  if◌then◌else◌, Exit, next, leave, Ends, EndsBy, Ends-bind, Ends-pure, Ends-imp, reply_lost,
}
use ticket_booking.Db.{Db, one_of}
use ticket_booking.Db.Consistent.{IsConsistent}
use ticket_booking.Spec.{free, held, sell, release, view}
use ticket_booking.Spec.Moves.{free_before, booking-view, payment-view, cancel-view}
use ticket_booking.Holds.Keys.{db-clear_holds, db-drop_keys}
use ticket_booking.World.{World, App, Env, Uuids, Response, booked, commit}
use ticket_booking.Booking.{Request, Verdict, finish}
use ticket_booking.Booking.Effect.{Placed, IsRefusal, book_tx-Ends, expires_at}
use ticket_booking.Booking.Answer.{db-log_attempt}
use ticket_booking.Payment.Effect.{Charged, amount_of}
use ticket_booking.Payment.Answer.{pay_commit-Ends, Charged-is_open, Left, Went}
use ticket_booking.Cancel.Effect.{
  Cancelled, Cancelled-is_open, Left as Uncancelled, cancel_commit-Ends,
}
use ticket_booking.Interleaved.{
  Job, gates, caps, books, settles, drops, Next, goes_on, responds, keys, book_phase, advance,
  started, book_request, pay_request, cancel_request,
}
use ticket_booking.Interleaved.Quiet.{book_request-Same, gate_phase-Same, cap_phase-Same}

module _ (u : Uuids) (app : App) (w : World) (v : IsConsistent w.db) where
  -- The order takes exactly the requested seats, each of them free.
  abbrev pub Takes : Env → Request → Db → Type 0
  Takes env b db =
      (view db ≡ (λ s. if one_of (map u.value b.seat_ids) s then held env.fresh else view w.db s))
      × ((s : ℕ) → one_of (map u.value b.seat_ids) s ≡ true → view w.db s ≡ free)

  -- What the order held, and nothing else, is sold to it.
  abbrev pub Sells : String → Db → Type 0
  Sells order db = view db ≡ (λ s. sell (u.value order) (view w.db s))

  -- What the order held, and nothing else, is free.
  abbrev pub Frees : String → Db → Type 0
  Frees order db = view db ≡ (λ s. release (λ k. k == u.value order) (view w.db s))

  Placed-Takes :
      (env : Env) (user : String) (b : Request) (db : Db)
      → Placed u app env user b w.db db
      → Takes env b db
  Placed-Takes env user b db p =
      let all = p.all_seats ∙ sym (length-map u.value b.seat_ids) in
      (
        ap view p.effect
            ∙ booking-view w.db v env.fresh (u.value user) (expires_at u app env user b)
                (u.value b.event_id) (map u.value b.seat_ids) p.new_id p.untaken all,
        free_before w.db v env.fresh (u.value user) (expires_at u app env user b)
            (u.value b.event_id) (map u.value b.seat_ids) p.new_id p.untaken all,
      )

  Charged-Sells :
      (env : Env) (user order key : String) (db : Db)
      → Charged u env user order key w.db db
      → Sells order db
  Charged-Sells env user order key db c =
      ap view c.effect
      ∙ payment-view w.db v (u.value order) (Charged-is_open u env user order key w.db db c v) key _

  Cancelled-Frees :
      (env : Env) (user order : String) (db : Db)
      → Cancelled u env user order w.db db
      → Frees order db
  Cancelled-Frees env user order db c =
      ap view c.effect
      ∙ cancel-view w.db v (u.value order) (Cancelled-is_open u env user order w.db db c v)

  -- A phase that changes tables: it goes through, or answers and leaves them alone, or loses the reply
  -- to its COMMIT.
  abbrev pub Failed : Env → (Response → Type 0) → (Db → Type 0) → Next × World → Type 0
  Failed env Other Change (n, w') =
      (resp : Response) × (n ≡ responds resp)
      × Other resp
      × ((w'.db ≡ w.db) ⊎ (Change w'.db × (env.fault commit ≡ reply_lost)))

  abbrev pub IsBooked : Env → String → Request → Next × World → Type 0
  IsBooked env user b (n, w') =
      ((n
          ≡ responds
              (record { status = 201; body = booked env.fresh (expires_at u app env user b) }))
        × Takes env b w'.db)
      ⊎ Failed env (λ resp. resp.status ≢ 201) (Takes env b) (n, w')

  abbrev pub IsPaid : Env → String → String → String → Next × World → Type 0
  IsPaid env user order key (n, w') =
      ((n ≡ goes_on (settles env user order key (amount_of u env user order key w.db)))
        × Sells order w'.db)
      ⊎ Failed env (λ resp. Unit {0}) (Sells order) (n, w')

  abbrev pub IsCancelled : Env → String → String → Next × World → Type 0
  IsCancelled env user order (n, w') =
      ((ks : List String) × (n ≡ goes_on (drops env user order ks)) × Frees order w'.db)
      ⊎ Failed env (λ resp. resp.status ≢ 200) (Frees order) (n, w')

  -- Of the later phases only the transaction of a booking changes tables.
  abbrev pub IsAdvanced : Job → Next × World → Type 0
  IsAdvanced (books env user b) r = IsBooked env user b r
  IsAdvanced _ r = r.1.db ≡ w.db

  abbrev Refuses : Env → Request → Verdict → World → Type 0
  Refuses env b x w' =
      IsRefusal x × ((w'.db ≡ w.db) ⊎ (Takes env b w'.db × (env.fault commit ≡ reply_lost)))

  abbrev Books : Env → String → Request → Verdict → World → Type 0
  Books env user b x w' =
      (x.1 ≡ record { status = 201; body = booked env.fresh (expires_at u app env user b) })
      × Takes env b w'.db

  book_phase-Ends :
      (env : Env) (user : String) (b : Request)
      → Ends (Refuses env b) (Books env user b) (book_phase u app env user b w)
  book_phase-Ends env user b =
      Ends-bind {N = λ at w'. (at ≡ expires_at u app env user b) × Takes env b w'.db} _ _ _
        (Ends-imp _ refuses (λ at w' (e, p, _). (e, Placed-Takes env user b w'.db p))
          (book_tx-Ends u app env user b (keys u app b) w))
        λ at w₁ (e, t). Ends-pure (rw e refl, t)
    where
      refuses :
          (x : Verdict) (w' : World)
          → IsRefusal x
            × ((w'.db ≡ w.db)
                ⊎ ((env.fault commit ≡ reply_lost) × Placed u app env user b w.db w'.db))
          → Refuses env b x w'
      refuses x w' (h, inl same) = (h, inl same)
      refuses x w' (h, inr (lost, p)) = (h, inr (Placed-Takes env user b w'.db p, lost))

  booked_lem :
      (env : Env) (user : String) (b : Request) (r : Exit Verdict Verdict × World)
      → EndsBy (Refuses env b) (Books env user b) r
      → IsBooked env user b (responds (finish u app env user b r).0, (finish u app env user b r).1)
  booked_lem env user b (next x, w') (e, t) = inl (ap responds e, rw (db-log_attempt app _ w') t)
  booked_lem env user b (leave x, w') ((_, h), t) =
      inr (x.1, refl, h, rw (db-log_attempt app _ w') t)

  advance-IsAdvanced : (j : Job) → IsAdvanced j (advance u app j w)
  unfolding advance
  advance-IsAdvanced (gates env user b e) = gate_phase-Same u app w env user e b
  advance-IsAdvanced (caps env user b) = cap_phase-Same u app w env user b
  advance-IsAdvanced (books env user b) = booked_lem env user b _ (book_phase-Ends env user b).holds
  advance-IsAdvanced (settles env user order key amount) = db-clear_holds u env (u.value order) w
  advance-IsAdvanced (drops env user order ks) = db-drop_keys env ks w

  pay_request-IsPaid :
      (env : Env) (user order key : String)
      → IsPaid env user order key (pay_request u app env user order key w)
  unfolding pay_request
  pay_request-IsPaid env user order key = go _ (pay_commit-Ends u env user order key w).holds
    where
      go :
          (r : Exit Response ℕ × World)
          → EndsBy (Left u env user order key w) (Went u env user order key w) r
          → IsPaid env user order key (started u app (settles env user order key) r)
      go (next a, w') (e, c) = inl (
        ap (λ x. goes_on (settles env user order key x)) e,
        Charged-Sells env user order key w'.db c,
      )
      go (leave x, w') (_, inl same) = inr (x, refl, tt, inl same)
      go (leave x, w') (_, inr (c, lost)) =
          inr (x, refl, tt, inr (Charged-Sells env user order key w'.db c, lost))

  cancel_request-IsCancelled :
      (env : Env) (user order : String)
      → IsCancelled env user order (cancel_request u app env user order w)
  unfolding cancel_request
  cancel_request-IsCancelled env user order = go _ (cancel_commit-Ends u env user order w).holds
    where
      go :
          (r : Exit Response (List String) × World)
          → EndsBy
              (Uncancelled u env user order w)
              (λ ks w'. Cancelled u env user order w.db w'.db)
              r
          → IsCancelled env user order (started u app (drops env user order) r)
      go (next ks, w') c = inl (ks, refl, Cancelled-Frees env user order w'.db c)
      go (leave x, w') (h, inl same) = inr (x, refl, h, inl same)
      go (leave x, w') (h, inr (c, lost)) =
          inr (x, refl, h, inr (Cancelled-Frees env user order w'.db c, lost))

  -- From consistent tables, whatever other requests left there and whatever calls fail, the phases of a
  -- request do to the seats what it asks for, or nothing. The first of a booking, and every later phase
  -- but its transaction, leaves the tables alone. The transaction takes exactly the requested seats, each
  -- of them free, for the new order and answers 201 with it; the first phase of a payment sells to the
  -- order what it held, and that of a cancellation frees it. Otherwise the phase answers (a booking not
  -- 201, a cancellation not 200) and leaves the tables alone, unless the reply to its COMMIT was lost.
  pub phase_effect :
      (env : Env) (user : String) (body : Option Request) (order key : String) (j : Job)
      → ((book_request u app env user body w).1.db ≡ w.db)
        × IsPaid env user order key (pay_request u app env user order key w)
        × IsCancelled env user order (cancel_request u app env user order w)
        × IsAdvanced j (advance u app j w)
  phase_effect env user body order key j = (
    book_request-Same u app w env user body,
    pay_request-IsPaid env user order key,
    cancel_request-IsCancelled env user order,
    advance-IsAdvanced j,
  )
