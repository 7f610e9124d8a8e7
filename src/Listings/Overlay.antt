-- ===== src/Listings/Overlay.antt =====
-- What `listSeats` shows of the holds.
use ticket_booking.Base.{
  ℕ, ◌+◌, ◌*◌, ◌<◌, String, ◌≡◌, refl, ap, subst, Bool, true, false, Option, none, some, List, [],
  ◌∷◌, map, if◌then◌else◌, not, is_uuid, All, any, ◌&&◌,
}
use ticket_booking.Db.{Event, Seat, SeatStatus, available, sold, is_sold}
use ticket_booking.Redis
use ticket_booking.Redis.{Store, hold_script, one_of, exists}
use ticket_booking.Redis.Exclusion.{hold_lasts}
use ticket_booking.World.{World, Uuids, failed}
use ticket_booking.Listings.{
  is_held, is_gone, Listed, Answer, page, denied, Calls, mget, mark, overlay, key_of, rows_of,
  shown_rows, page_of, list_seats,
}

not_there : (r : Store) (now : ℕ) (k : String) → Redis.read r now k ≡ none → exists r now k ≡ false
unfolding Redis.exists
not_there r now k e = rw (exists, e) refl

abbrev is_page : Answer → Bool
is_page (page e ls) = true
is_page (denied status code) = false

abbrev rows_in : Answer → List Listed
rows_in (page e ls) = ls
rows_in (denied status code) = []

module _ (u : Uuids) (by_seat_no : List Seat → List Seat) (c : Calls) (event_id : String)
    (ks : List String) (user : String) (ttl t : ℕ) (r : Store) (w : World)
    (held : hold_script ks user ttl t r ≡ some (1, w.redis)) (lasts : c.now < t + 1000 * ttl) where
  -- A seat that is sold is shown so, and one that is not, but whose key is held, is shown as held.
  abbrev pub IsShown : Listed → Type 0
  IsShown l =
      (is_sold l.seat.status ≡ true → l.shown ≡ is_gone)
      × (is_sold l.seat.status ≡ false
          → one_of ks (key_of u by_seat_no c event_id l.seat) ≡ true
          → l.shown ≡ is_held)

  marked :
      (s : Seat) (status : SeatStatus) (v : Option String)
      → Redis.read w.redis c.now (key_of u by_seat_no c event_id s) ≡ v
      → (is_sold status ≡ true → mark v status ≡ is_gone)
        × (is_sold status ≡ false
            → one_of ks (key_of u by_seat_no c event_id s) ≡ true
            → mark v status ≡ is_held)
  marked s sold none e = (λ _. refl, λ h _. cc)
  marked s sold (some v) e = (λ _. refl, λ h _. cc)
  marked s available (some v) e = (λ h. cc, λ _ _. refl)
  marked s available none e = (
    λ h. cc,
    λ _ one.
        let there =
          hold_lasts ks user ttl t c.now r w.redis (key_of u by_seat_no c event_id s) held one
            lasts in
        let gone = not_there w.redis c.now (key_of u by_seat_no c event_id s) e in cc,
  )

  overlay-IsShown :
      (seats : List Seat)
      → All IsShown
          (overlay seats (mget w.redis c.now (map (key_of u by_seat_no c event_id) seats)))
  unfolding overlay
  overlay-IsShown [] = tt
  overlay-IsShown (s ∷ ss) = (
    marked s s.status (Redis.read w.redis c.now (key_of u by_seat_no c event_id s)) refl,
    overlay-IsShown ss,
  )

  of_guard :
      (e : Event) (ls : List Listed) (b : Bool) (status : ℕ) (code : String) (x : Answer)
      → (x ≡ page e ls → All IsShown ls)
      → (if b then denied status code else x) ≡ page e ls
      → All IsShown ls
  of_guard e ls true status code x k h = let no_page = ap is_page h in cc
  of_guard e ls false status code x k h = k h

  of_event :
      (e : Event) (ls : List Listed)
      → failed c.mget ≡ false
      → (o : Option Event) → page_of u by_seat_no c event_id o w ≡ page e ls
      → All IsShown ls
  of_event e ls m none h = let no_page = ap is_page h in cc
  of_event e ls m (some e') h =
      of_guard e ls (failed c.rows) 400 "bad_event" _
        (of_guard e ls (failed c.scan && any (λ _. true) (rows_of u by_seat_no c event_id w)) 500
          "db_error"
          (page e' (shown_rows u by_seat_no c event_id w (rows_of u by_seat_no c event_id w)))
          (λ k.
            subst (All IsShown) (ap rows_in k)
              (rw m (overlay-IsShown (rows_of u by_seat_no c event_id w)))))
        h

  -- As long as a hold of some keys lasts and MGET goes through, on whatever page `listSeats` answers,
  -- each seat that is sold is shown as sold, and each seat that is not, but whose key was held, as held.
  pub list_seats-hold_script :
      (e : Event) (ls : List Listed)
      → failed c.mget ≡ false
      → list_seats u by_seat_no c event_id w ≡ page e ls
      → All IsShown ls
  unfolding list_seats
  list_seats-hold_script e ls m h =
      of_guard e ls (not (is_uuid event_id)) 400 "bad_event_id" _ (of_event e ls m _) h
