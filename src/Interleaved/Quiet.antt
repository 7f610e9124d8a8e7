-- ===== src/Interleaved/Quiet.antt =====
-- The phases of `createBooking` before its transaction leave the tables alone.
use ticket_booking.Base.{
  String, ◌≡◌, ap, ◌∙◌, Option, Exit, next, leave, Ends, EndsBy, Ends-bind, Ends-imp,
}
use ticket_booking.Db.{Event}
use ticket_booking.World.{World, App, Env, Uuids, Response}
use ticket_booking.Booking.{Request, Verdict, hold_cap}
use ticket_booking.Booking.Admission.{sale_gate-Ends, hold-Ends, hold_cap-Ends}
use ticket_booking.Booking.Answer.{gated-Ends, db-log_attempt}
use ticket_booking.Interleaved.{
  Job, caps, books, Next, goes_on, keys, gate_phase, then_, started, book_request,
}

module _ (u : Uuids) (app : App) (w : World) where
  abbrev Same : {A : Type 0} → A → World → Type 0
  Same a w' = w'.db ≡ w.db

  then_lem :
      {A : Type 0} (env : Env) (user : String) (b : Request) (k : A → Next)
      (r : Exit Verdict A × World)
      → EndsBy Same Same r
      → (then_ u app env user b k r).1.db ≡ w.db
  then_lem env user b k (next a, w') h = h
  then_lem env user b k (leave x, w') h = rw (db-log_attempt app _ w') h

  started_lem :
      {A : Type 0} (k : A → Job) (r : Exit Response A × World)
      → EndsBy Same Same r
      → (started u app k r).1.db ≡ w.db
  started_lem k (next a, w') h = h
  started_lem k (leave x, w') h = h

  gate_phase-Ends :
      (env : Env) (user : String) (e : Event) (b : Request)
      → Ends Same Same (gate_phase u app env user e b w)
  gate_phase-Ends env user e b =
      Ends-bind _ _ _
        (Ends-imp _ (λ x w' (_, s). ap (λ (y : World). y.db) s) (λ _ w' h. h)
          (sale_gate-Ends u app env user e b w))
        λ _ w₁ (_, _, _, s₁).
          Ends-imp _ (λ x w' (_, s). s ∙ ap (λ (y : World). y.db) s₁)
            (λ _ w' (s, _). s ∙ ap (λ (y : World). y.db) s₁)
            (hold-Ends u app env user (keys u app b) w₁)

  cap_phase-Ends :
      (env : Env) (user : String) (b : Request)
      → Ends {A = Unit {0}} Same Same (hold_cap u app env user (keys u app b) b w)
  cap_phase-Ends env user b =
      Ends-imp _ (λ x w' (_, s). s) (λ _ w' (_, s). ap (λ (y : World). y.db) s)
        (hold_cap-Ends u app env user (keys u app b) b w)

  pub gate_phase-Same :
      (env : Env) (user : String) (e : Event) (b : Request)
      → (then_ u app env user b
          (λ _. goes_on (caps env user b))
          (gate_phase u app env user e b w)).1.db
        ≡ w.db
  gate_phase-Same env user e b = then_lem env user b _ _ (gate_phase-Ends env user e b).holds

  pub cap_phase-Same :
      (env : Env) (user : String) (b : Request)
      → (then_ u app env user b
          (λ _. goes_on (books env user b))
          (hold_cap u app env user (keys u app b) b w)).1.db
        ≡ w.db
  cap_phase-Same env user b = then_lem env user b _ _ (cap_phase-Ends env user b).holds

  pub book_request-Same :
      (env : Env) (user : String) (body : Option Request)
      → (book_request u app env user body w).1.db ≡ w.db
  unfolding book_request
  book_request-Same env user body =
      started_lem _ _
        (Ends-imp _ (λ x w' (_, s). ap (λ (y : World). y.db) s)
          (λ be w' (_, _, s). ap (λ (y : World). y.db) s) (gated-Ends u app env user body w)).holds
