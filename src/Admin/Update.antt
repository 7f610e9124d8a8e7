-- ===== src/Admin/Update.antt =====
-- The whole of `patchAdminEvent`: its answers and its effect on the tables.
use ticket_booking.Base.{
  ℕ, ◌≡◌, ◌≢◌, refl, ap, String, Option, none, some, ◌⊎◌, inl, inr, List, [], ◌∷◌, arith, ◌==◌,
  length, select, update, fine, refused, reply_lost, Fault, Exit, next, leave, Exec, Ends, EndsBy,
  Ends-pure, Ends-guard, ◌>>=◌, Bool-cases, ==→eq,
}
use ticket_booking.Db.{Db, Event}
use ticket_booking.Db.Consistent.{IsConsistent}
use ticket_booking.Spec.{stays}
use ticket_booking.Spec.Allowed.{IsAllowed, same-IsAllowed}
use ticket_booking.World.{World, Env, Uuids, Response, write_err, event_updated, patch_event}
use ticket_booking.World.Outcomes.{Ends-found}
use ticket_booking.Admin.Tables.{Patch, Draws, Change, changed, status_named, patch_events}
use ticket_booking.Admin.Handlers.{given, capped, check_patch, patched, patch_admin_event}
use ticket_booking.Admin.Consistent.{with_seats-IsConsistent}

module _ {A B : Type 0} (f : A → Option B) where
  -- A field of a patch as the handler goes on with it.
  pub data Read : Option A → Option B → Type 0 where
    absent : Read none none
    present : (a : A) (b : B) → f a ≡ some b → Read (some a) (some b)

  Ends-given :
      {C : Type 0} {L : Response → World → Type 0} {N : C → World → Type 0} (o : Option A)
      (code : String) (k : Option B → Exec World Response C) (w : World)
      → L (write_err 400 code) w
      → ((b : Option B) → Read o b → Ends L N (k b w))
      → Ends L N ((given f o code >>= k) w)
  unfolding ◌>>=◌
  Ends-given none code k w h g = g none absent
  Ends-given {C} {L} {N} (some a) code k w h g = go (f a) refl
    where
      go :
          (o : Option B)
          → f a ≡ o
          → Ends L N (
              let (x, s') = (elim o as (λ _. Exit Response (Option B) × World) [
                | none ↦ (leave (write_err 400 code), w)
                | some b ↦ (next (some b), w)
              ]) in
              elim x as (λ _. Exit Response C × World) [
                | next a ↦ k a s'
                | leave e ↦ (leave e, s')
              ])
      go none e = record { holds = h }
      go (some b) e = g (some b) (present a b e)

update_none :
    (id : ℕ) (f : Event → Event) (es : List Event)
    → length (select (λ e. e.id == id) es) ≡ 0
    → update (λ e. e.id == id) f es ≡ es
update_none id f [] h = refl
update_none id f (e ∷ es) h = ground (arith, update_none id f es)

module _ (u : Uuids) (parse_time : String → Option ℕ) (env : Env) (d : Draws) (id : String) where
  -- The fields that the body has are valid, and are those that change.
  pub record IsAsked (b : Patch) (c : Change) : Type 0 where
    pub status_is : Read status_named b.status c.status
    pub opening_is : Read parse_time b.sale_opens_at c.sale_opens_at
    pub cap_is : Read capped b.max_seats_per_order c.max_seats_per_order

  check_patch-Ends :
      (body : Option Patch) (w : World)
      → Ends
          (λ resp w'. (resp.status ≢ 200) × (w' ≡ w))
          (λ c w'. ((b : Patch) × (body ≡ some b) × IsAsked b c) × (w' ≡ w))
          (check_patch u parse_time env d id body w)
  unfolding check_patch
  check_patch-Ends body w =
      Ends-guard _ _ _ w (λ _. (omega arith, refl))
        λ _.
          Ends-found body _ _ w (λ _. (omega arith, refl))
            λ b q.
              Ends-given status_named b.status _ _ w (omega arith, refl)
                λ s hs.
                  Ends-given parse_time b.sale_opens_at _ _ w (omega arith, refl)
                    λ t ht.
                      Ends-given capped b.max_seats_per_order _ _ w (omega arith, refl)
                        λ m hm.
                          Ends-pure
                            ((b, q, record { status_is = hs; opening_is = ht; cap_is = hm }), refl)

  abbrev pub with_change : Change → Db → Db
  with_change c db = record db { events = update (λ e. e.id == u.value id) (changed c) db.events }

  -- The tables as they were, under another answer than 200; or the event changed as the body asks,
  -- under 200 unless the reply was lost.
  abbrev pub Updated : Option Patch → World → Response × World → Type 0
  Updated body w (resp, w') =
      ((resp.status ≢ 200) × (w'.db ≡ w.db))
      ⊎ ((b : Patch) × (c : Change) × (body ≡ some b)
          × IsAsked b c
          × (w'.db ≡ with_change c w.db)
          × ((resp ≡ record { status = 200; body = event_updated id })
              ⊎ ((env.fault patch_event ≡ reply_lost) × (resp.status ≢ 200))))

  patched-Updated :
      (body : Option Patch) (b : Patch) (c : Change) (w : World)
      → body ≡ some b
      → IsAsked b c
      → (f : Fault) → env.fault patch_event ≡ f
      → Updated body w (patched u parse_time env d f id (patch_events (u.value id) c w.db) w)
  unfolding patch_events
  patched-Updated body b c w q a refused e = inl (omega arith, refl)
  patched-Updated body b c w q a reply_lost e = inr (b, c, q, a, refl, inr (e, omega arith))
  patched-Updated body b c w q a fine e =
      elim (Bool-cases (length (select (λ x. x.id == u.value id) w.db.events) == 0)) [
        | inl z ↦ rw z (
            inl (
              omega arith,
              ap (λ es. record w.db { events = es })
                  (update_none (u.value id) (changed c) w.db.events (==→eq _ 0 z)),
            ))
        | inr n ↦ rw n (inr (b, c, q, a, refl, inl refl))
      ]

  pub patch_admin_event_effect :
      (body : Option Patch) (w : World)
      → Updated body w (patch_admin_event u parse_time env d id body w)
  unfolding patch_admin_event
  patch_admin_event_effect body w =
      go (check_patch u parse_time env d id body w) (check_patch-Ends body w).holds
    where
      go :
          (r : Exit Response Change × World)
          → EndsBy
              (λ resp w'. (resp.status ≢ 200) × (w' ≡ w))
              (λ c w'. ((b : Patch) × (body ≡ some b) × IsAsked b c) × (w' ≡ w))
              r
          → Updated body w (
              let (x, w') = r in
              elim x as (λ _. Response × World) [
                | leave resp ↦ (resp, w')
                | next c ↦
                    patched u parse_time env d
                      (env.fault patch_event)
                      id
                      (patch_events (u.value id) c w'.db)
                      w'
              ])
      go (leave resp, w') (n, s) = inl (n, ap (λ (x : World). x.db) s)
      go (next c, w') ((b, q, a), s) =
          rw s (patched-Updated body b c w q a (env.fault patch_event) refl)

  pub patch_admin_event-IsAllowed :
      (body : Option Patch) (w : World)
      → IsConsistent w.db
      → IsAllowed w.db (patch_admin_event u parse_time env d id body w).1.db
  patch_admin_event-IsAllowed body w v =
      go (patch_admin_event u parse_time env d id body w) (patch_admin_event_effect body w)
    where
      go : (r : Response × World) → Updated body w r → IsAllowed w.db r.1.db
      go (resp, w') (inl (n, same)) = same-IsAllowed v same
      go (resp, w') (inr (b, c, q, a, e, x)) =
          rw e
            (record { consistent = with_seats-IsConsistent w.db _ [] v tt refl; move = stays refl })
