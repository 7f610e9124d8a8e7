-- ===== src/Holds/Keys.antt =====
-- Hold keys are distinct for distinct seats, and dropping them changes Redis alone.
use Prim.Native.String.{◌++◌, count}
use text.Mathlib.TextLemmas.{append_cancel_left, append_inj}
use ticket_booking.Base.{ℕ, String, ◌≡◌, refl, List, [], ◌∷◌, if_cases, fine, refused, reply_lost}
use ticket_booking.Redis
use ticket_booking.World.{World, Env, Uuids, failed, list_keys, clear_holds}
use ticket_booking.Holds.{hold_key, drop_keys, order_keys, clear_holds_for_order}

pub db-drop_keys : (env : Env) (keys : List String) (w : World) → (drop_keys env keys w).db ≡ w.db
db-drop_keys env [] w = refl
db-drop_keys env (k ∷ keys) w =
    elim (env.fault clear_holds)
      as (λ f.
        (elim f as (λ _. World) [
          | refused ↦ w
          | _ ↦ record w { redis = Redis.delete (k ∷ keys) w.redis }
        ]).db
        ≡ w.db) [ fine ↦ refl | refused ↦ refl | reply_lost ↦ refl ]

pub db-clear_holds :
    (u : Uuids) (env : Env) (o : ℕ) (w : World) → (clear_holds_for_order u env o w).db ≡ w.db
unfolding clear_holds_for_order
db-clear_holds u env o w =
    if_cases (λ (x : World). x.db ≡ w.db) (failed (env.fault list_keys)) _ _ (λ _. refl)
      (λ _. db-drop_keys env (order_keys u o w.db) w)

-- Two events of equally long ids, as uuids are, share no hold key, nor do two seats.
pub hold_key_inj :
    (e e' s s' : String) → count e ≡ count e' → hold_key e s ≡ hold_key e' s' → (e ≡ e') × (s ≡ s')
unfolding hold_key
hold_key_inj e e' s s' n h =
    let (event, rest) =
      append_inj {s₁ = e} {s₂ = e'} (append_cancel_left "hold:" (e ++ ":" ++ s) (e' ++ ":" ++ s') h)
        n in
    (event, append_cancel_left ":" s s' rest)
