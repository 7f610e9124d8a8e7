-- ===== src/Booking/Progress.antt =====
-- A booking that has everything it needs goes through.
use ticket_booking.Base.{
  ℕ, ◌+◌, ◌*◌, ◌<◌, String, ◌≡◌, refl, false, Option, any, ap, sym, subst, Ends, EndsBy, Ends-bind,
  Ends-pure, Exit, next, leave,
}
use ticket_booking.Db.{Event}
use ticket_booking.Redis
use ticket_booking.Redis.{put_all}
use ticket_booking.World.{
  World, App, Env, Uuids, Response, booked, Site, run_hold, begin_tx, calm, success,
}
use ticket_booking.Booking.{Request, Verdict, find_event, attempt, finish, gated, create_booking}
use ticket_booking.Booking.Body.{IsChecked}
use ticket_booking.Booking.Admission.{IsAdmitted, keys}
use ticket_booking.Booking.Ready.{
  Never, check_body-progress, IsFree, sale_gate-progress, hold-progress, hold_cap-progress,
  book_tx-progress,
}

module _ (u : Uuids) (app : App) (clock : Site → ℕ) (fresh : ℕ) (user : String) where
  abbrev env : Env
  env = calm clock fresh

  abbrev Won : Verdict → World → Type 0
  Won v w = v ≡ (
    success,
    record { status = 201; body = booked fresh (clock begin_tx + 1000 * app.hold_ttl) },
  )

  attempt-progress :
      (b : Request) (w : World) (a : IsAdmitted u app env user w.db b)
      → 0 < app.hold_ttl
      → any (Redis.exists w.redis (clock run_hold)) (keys u app env user b) ≡ false
      → IsFree u app clock fresh user w.db b
      → Ends Never Won (attempt u app env user a.event b w)
  unfolding attempt
  attempt-progress b w a p k f =
      Ends-bind _ _ _
        (sale_gate-progress u app clock fresh user a.event b w a.is_open a.opened a.per_order)
        λ _ w₁ s₁. rw s₁ (
          Ends-bind _ _ _ (hold-progress u app clock fresh user (keys u app env user b) w p k)
            λ _ w₂ d₂.
              Ends-bind _ _ _
                (hold_cap-progress u app clock fresh user (keys u app env user b) b w₂
                  (rw d₂ a.per_user))
                λ _ w₃ s₃. rw s₃ (
                  Ends-bind _ _ _
                    (book_tx-progress u app clock fresh user (keys u app env user b) b w₂
                      (subst (λ d. IsFree u app clock fresh user d b) (sym d₂) f))
                    λ e w₄ q. Ends-pure (rw q refl)))

  -- A booking none of whose calls fails, by a user with an account, of a well formed request that passes
  -- the sale gate and the quotas, for seats that are free in Redis and in the tables, is answered 201
  -- with its order.
  pub create_booking-progress :
      (body : Option Request) (b : Request) (w : World)
      → IsChecked body b
      → IsAdmitted u app env user w.db b
      → 0 < app.hold_ttl
      → any (Redis.exists w.redis (clock run_hold)) (keys u app env user b) ≡ false
      → IsFree u app clock fresh user w.db b
      → (create_booking u app env user body w).0
        ≡ record { status = 201; body = booked fresh (clock begin_tx + 1000 * app.hold_ttl) }
  unfolding create_booking find_event
  create_booking-progress body b w c a p k f = go (gated u app env user body w) checked.holds
    where
      checked : Ends Never (λ be w'. (be ≡ (b, a.event)) × (w' ≡ w)) (gated u app env user body w)
      checked = Ends-bind _ _ _ (check_body-progress body b w c) λ b' w₁ (e₁, s₁).
          rw (s₁, e₁) (Ends-bind _ _ w found λ e w₂ (e₂, s₂). Ends-pure (rw e₂ refl, s₂))
        where
          found : Ends Never (λ e w'. (e ≡ a.event) × (w' ≡ w)) (find_event u app env user b w)
          found = rw a.found (Ends-pure (refl, refl))

      finished :
          (r : Exit Verdict Verdict × World)
          → EndsBy Never Won r
          → (finish u app env user b r).0
            ≡ record { status = 201; body = booked fresh (clock begin_tx + 1000 * app.hold_ttl) }
      finished (next v, w') e = ap (λ (x : Verdict). x.1) e
      finished (leave v, w') e = absurd e

      go :
          (x : Exit Response (Request × Event) × World)
          → EndsBy Never (λ be w'. (be ≡ (b, a.event)) × (w' ≡ w)) x
          → (let (r, w') = x in
              elim r as (λ _. Response × World) [
                | leave resp ↦ (resp, w')
                | next (b, e) ↦ finish u app env user b (attempt u app env user e b w')
              ]).0
            ≡ record { status = 201; body = booked fresh (clock begin_tx + 1000 * app.hold_ttl) }
      go (next be, w') (e, s) =
          rw (e, s)
            (finished (attempt u app env user a.event b w) (attempt-progress b w a p k f).holds)
      go (leave resp, w') h = absurd h
