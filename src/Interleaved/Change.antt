-- ===== src/Interleaved/Change.antt =====
-- What one phase of a request does to the tables, whatever ran before it.
use ticket_booking.Base.{
  String, Option, inl, inr, Exit, next, leave, Ends, EndsBy, Ends-bind, Ends-pure, Ends-imp,
}
use ticket_booking.Db.Consistent.{IsConsistent}
use ticket_booking.Spec.Allowed.{
  IsAllowed, same-IsAllowed, Placed-IsAllowed, Charged-IsAllowed, Cancelled-IsAllowed,
}
use ticket_booking.Holds.Keys.{db-clear_holds, db-drop_keys}
use ticket_booking.World.{World, App, Env, Uuids, Response}
use ticket_booking.Booking.{Request, Verdict, finish}
use ticket_booking.Booking.Effect.{Undone, book_tx-Ends}
use ticket_booking.Booking.Answer.{db-log_attempt}
use ticket_booking.Payment.Answer.{pay_commit-Ends, Left}
use ticket_booking.Cancel.Effect.{Left as Uncancelled, cancel_commit-Ends}
use ticket_booking.Interleaved.{
  Job, gates, caps, books, settles, drops, keys, book_phase, advance, started, book_request,
  pay_request, cancel_request,
}
use ticket_booking.Interleaved.Quiet.{book_request-Same, gate_phase-Same, cap_phase-Same}

module _ (u : Uuids) (app : App) (w : World) (v : IsConsistent w.db) where
  -- The result of a phase, and the tables that it leaves.
  abbrev Ok : {A : Type 0} → A → World → Type 0
  Ok a w' = IsAllowed w.db w'.db

  finish_lem :
      (env : Env) (user : String) (b : Request) (r : Exit Verdict Verdict × World)
      → EndsBy Ok Ok r
      → IsAllowed w.db (finish u app env user b r).1.db
  finish_lem env user b (next x, w') h = rw (db-log_attempt app _ w') h
  finish_lem env user b (leave x, w') h = rw (db-log_attempt app _ w') h

  book_phase-Ends :
      (env : Env) (user : String) (b : Request) → Ends Ok Ok (book_phase u app env user b w)
  book_phase-Ends env user b =
      Ends-bind _ _ _
        (Ends-imp _ undone (λ at w' (_, p, _). Placed-IsAllowed u env user w.db w'.db v app b p)
          (book_tx-Ends u app env user b (keys u app b) w))
        λ at w₁ h. Ends-pure h
    where
      undone : (x : Verdict) (w' : World) → Undone u app env user b w x w' → IsAllowed w.db w'.db
      undone x w' (_, inl same) = same-IsAllowed v same
      undone x w' (_, inr (_, p)) = Placed-IsAllowed u env user w.db w'.db v app b p

  pub advance-IsAllowed : (j : Job) → IsAllowed w.db (advance u app j w).1.db
  unfolding advance
  advance-IsAllowed (gates env user b e) = same-IsAllowed v (gate_phase-Same u app w env user e b)
  advance-IsAllowed (caps env user b) = same-IsAllowed v (cap_phase-Same u app w env user b)
  advance-IsAllowed (books env user b) = finish_lem env user b _ (book_phase-Ends env user b).holds
  advance-IsAllowed (settles env user order key amount) =
      same-IsAllowed v (db-clear_holds u env (u.value order) w)
  advance-IsAllowed (drops env user order ks) = same-IsAllowed v (db-drop_keys env ks w)

  started_lem :
      {A : Type 0} (k : A → Job) (r : Exit Response A × World)
      → EndsBy Ok Ok r
      → IsAllowed w.db (started u app k r).1.db
  started_lem k (next a, w') h = h
  started_lem k (leave x, w') h = h

  pub book_request-IsAllowed :
      (env : Env) (user : String) (body : Option Request)
      → IsAllowed w.db (book_request u app env user body w).1.db
  book_request-IsAllowed env user body = same-IsAllowed v (book_request-Same u app w env user body)

  pub pay_request-IsAllowed :
      (env : Env) (user order key : String)
      → IsAllowed w.db (pay_request u app env user order key w).1.db
  unfolding pay_request
  pay_request-IsAllowed env user order key =
      started_lem _ _
        (Ends-imp _ left (λ a w' (_, c). Charged-IsAllowed u env user w.db w'.db v order key c)
          (pay_commit-Ends u env user order key w)).holds
    where
      left : (x : Response) (w' : World) → Left u env user order key w x w' → IsAllowed w.db w'.db
      left x w' (_, inl same) = same-IsAllowed v same
      left x w' (_, inr (c, _)) = Charged-IsAllowed u env user w.db w'.db v order key c

  pub cancel_request-IsAllowed :
      (env : Env) (user order : String)
      → IsAllowed w.db (cancel_request u app env user order w).1.db
  unfolding cancel_request
  cancel_request-IsAllowed env user order =
      started_lem _ _
        (Ends-imp _ left (λ ks w' c. Cancelled-IsAllowed u env user w.db w'.db v order c)
          (cancel_commit-Ends u env user order w)).holds
    where
      left :
          (x : Response) (w' : World) → Uncancelled u env user order w x w' → IsAllowed w.db w'.db
      left x w' (_, inl same) = same-IsAllowed v same
      left x w' (_, inr (c, _)) = Cancelled-IsAllowed u env user w.db w'.db v order c
