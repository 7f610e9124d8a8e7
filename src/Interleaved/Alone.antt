-- ===== src/Interleaved/Alone.antt =====
-- A request whose phases run with nothing in between is the handler.
use ticket_booking.Base.{
  ℕ, zero, suc, String, ◌≡◌, refl, ◌∙◌, sym, ap, Option, Exec, Exit, next, leave, ◌>>=◌,
}
use ticket_booking.World.{World, App, Env, Uuids, Response, reply}
use ticket_booking.Db.{Event}
use ticket_booking.Booking.{
  Request, Verdict, gated, sale_gate, hold_cap, attempt, finish, create_booking,
}
use ticket_booking.Payment.{pay_order, pay_commit, pay_settle}
use ticket_booking.Cancel.{cancel_order, cancel_commit, cancel_settle}
use ticket_booking.Interleaved.{
  Job, Next, goes_on, responds, gates, caps, books, settles, drops, then_, keys, gate_phase,
  book_phase, answered, advance, started, book_request, pay_request, cancel_request,
}

-- What follows a computation, at its result.
abbrev follow : {S E A B : Type 0} → Exit E A × S → (A → Exec S E B) → Exit E B × S
follow (next a, s) f = f a s
follow (leave e, s) f = (leave e, s)

follow_lem :
    {S E A B : Type 0} (m : Exec S E A) (f : A → Exec S E B) (s : S) → (m >>= f) s ≡ follow (m s) f
unfolding ◌>>=◌
follow_lem {S} {E} {A} {B} m f s = go (m s)
  where
    go :
        (r : Exit E A × S)
        → (let (x, s') = r in elim x [ next a ↦ f a s' | leave e ↦ (leave e, s') ]) ≡ follow r f
    go (next a, s') = refl
    go (leave e, s') = refl

-- `(m >>= f) >>= g` is `m >>= λ a. f a >>= g`.
follow-follow :
    {S E A B C : Type 0} (r : Exit E A × S) (f : A → Exec S E B) (g : B → Exec S E C)
    → follow (follow r f) g ≡ follow r (λ a. f a >>= g)
follow-follow (next a, s) f g = sym (follow_lem (f a) g s)
follow-follow (leave e, s) f g = refl

module _ (u : Uuids) (app : App) where
  -- A request runs for so many more phases with nothing in between.
  abbrev alone : ℕ → Next × World → Next × World
  alone zero r = r
  alone (suc n) (goes_on j, w) = alone n (advance u app j w)
  alone (suc n) (responds resp, w) = (responds resp, w)

  module _ (env : Env) (user : String) (b : Request) where
    abbrev done : Exit Verdict Verdict × World → Next × World
    done r = answered u app (finish u app env user b r)

    -- A phase and what follows it.
    alone-then_ :
        {A : Type 0} (n : ℕ) (k : A → Next) (f : A → Exec World Verdict Verdict)
        (r : Exit Verdict A × World)
        → ((a : A) (w : World) → alone (suc n) (k a, w) ≡ done (f a w))
        → alone (suc n) (then_ u app env user b k r) ≡ done (follow r f)
    alone-then_ n k f (next a, w) h = h a w
    alone-then_ n k f (leave v, w) h = refl

    abbrev cap_rest : Unit {0} → Exec World Verdict Verdict
    cap_rest _ = hold_cap u app env user (keys u app b) b >>= λ _. book_phase u app env user b

    alone-books :
        (w : World) → alone 1 (goes_on (books env user b), w) ≡ done (book_phase u app env user b w)
    unfolding advance
    alone-books w = refl

    alone-caps : (w : World) → alone 2 (goes_on (caps env user b), w) ≡ done (cap_rest tt w)
    unfolding advance
    alone-caps w =
        alone-then_ 0 _ (λ _. book_phase u app env user b)
          (hold_cap u app env user (keys u app b) b w) (λ _ w'. alone-books w')
        ∙ ap done (sym (follow_lem (hold_cap u app env user (keys u app b) b) _ w))

    attempt_lem :
        (e : Event) (w : World)
        → attempt u app env user e b w ≡ follow (gate_phase u app env user e b w) cap_rest
    unfolding attempt
    attempt_lem e w =
        follow_lem (sale_gate u app env user e b) _ w
        ∙ sym (follow-follow (sale_gate u app env user e b w) _ cap_rest)
        ∙ ap (λ r. follow r cap_rest) (sym (follow_lem (sale_gate u app env user e b) _ w))

    alone-gates :
        (e : Event) (w : World)
        → alone 3 (goes_on (gates env user b e), w) ≡ done (attempt u app env user e b w)
    unfolding advance
    alone-gates e w =
        alone-then_ 1 _ cap_rest (gate_phase u app env user e b w) (λ _ w'. alone-caps w')
        ∙ ap done (sym (attempt_lem e w))

  alone-started :
      {A : Type 0} (n : ℕ) (k : A → Job) (r : Exit Response A × World)
      (f : A → World → Response × World)
      → ((a : A) (w : World) → alone (suc n) (goes_on (k a), w) ≡ answered u app (f a w))
      → alone (suc n) (started u app k r)
        ≡ answered u app (reply (follow r (λ a w. let (x, w') = f a w in (next x, w'))))
  alone-started n k (next a, w) f h = h a w
  alone-started n k (leave x, w) f h = refl

  book_alone :
      (env : Env) (user : String) (body : Option Request) (w : World)
      → alone 3 (book_request u app env user body w)
        ≡ answered u app (create_booking u app env user body w)
  unfolding book_request create_booking
  book_alone env user body w = go (gated u app env user body w)
    where
      go :
          (r : Exit Response (Request × Event) × World)
          → alone 3 (started u app (λ be. gates env user be.0 be.1) r)
            ≡ answered u app (
                let (x, w') = r in
                elim x [
                  | leave resp ↦ (resp, w')
                  | next (b, e) ↦ finish u app env user b (attempt u app env user e b w')
                ])
      go (leave resp, w') = refl
      go (next (b, e), w') = alone-gates env user b e w'

  pay_alone :
      (env : Env) (user order key : String) (w : World)
      → alone 1 (pay_request u app env user order key w)
        ≡ answered u app (pay_order u env user order key w)
  unfolding pay_request pay_order advance
  pay_alone env user order key w =
      alone-started 0 (settles env user order key) (pay_commit u env user order key w)
        (pay_settle u env user order key) (λ _ _. refl)
      ∙ ap (λ r. answered u app (reply r)) (sym (follow_lem (pay_commit u env user order key) _ w))

  cancel_alone :
      (env : Env) (user order : String) (w : World)
      → alone 1 (cancel_request u app env user order w)
        ≡ answered u app (cancel_order u env user order w)
  unfolding cancel_request cancel_order advance
  cancel_alone env user order w =
      alone-started 0 (drops env user order) (cancel_commit u env user order w)
        (cancel_settle u env user order) (λ _ _. refl)
      ∙ ap (λ r. answered u app (reply r)) (sym (follow_lem (cancel_commit u env user order) _ w))

  -- Whatever calls fail, a booking, a payment or a cancellation whose phases run with no other step in
  -- between answers, and leaves the shared state, as `createBooking`, `payOrder` and `cancelOrder` do.
  alone_is_handler :
      (env : Env) (user : String) (w : World)
      → ((body : Option Request)
          → alone 3 (book_request u app env user body w)
            ≡ answered u app (create_booking u app env user body w))
        × ((order key : String)
            → alone 1 (pay_request u app env user order key w)
              ≡ answered u app (pay_order u env user order key w))
        × ((order : String)
            → alone 1 (cancel_request u app env user order w)
              ≡ answered u app (cancel_order u env user order w))
  alone_is_handler env user w = (
    λ body. book_alone env user body w,
    λ order key. pay_alone env user order key w,
    λ order. cancel_alone env user order w,
  )
