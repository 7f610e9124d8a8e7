-- ===== src/Admin/Asked.antt =====
-- The row that `createAdminEvent` inserts into `events`, against the body of the request.
use mathlib.Core.Bool.{not}
use ticket_booking.Base.{
  ℕ, String, ◌≡◌, refl, true, false, Option, none, some, ◌⊎◌, inl, inr, List, str_eq, is_uuid, ◌&&◌,
  arith, trim_space, Bool-cases,
}
use ticket_booking.Db.{Event}
use ticket_booking.World.{Env, Uuids}
use ticket_booking.Admin.Tables.{NewEvent, Draws, Plan, of_series, null_if_empty}
use ticket_booking.Admin.Handlers.{event_of}

module _ (u : Uuids) (d : Draws) (b : NewEvent) where
  abbrev series_id : String
  series_id = trim_space b.series_id

  abbrev series_name : String
  series_name = trim_space b.series_name

  -- It stands alone, begins a production under a drawn id, or joins one with its name and venue.
  abbrev Grouped : List Event → Event → Type 0
  Grouped events e =
      ((str_eq series_id "" ≡ true)
        × (str_eq series_name "" ≡ true)
        × (e.series_id ≡ none)
        × (e.series_name ≡ none)
        × (e.venue ≡ none))
      ⊎ (((str_eq series_id "" ≡ true)
            × (str_eq series_name "" ≡ false)
            × (e.series_id ≡ some d.series)
            × (e.series_name ≡ some series_name)
            × (e.venue ≡ null_if_empty (trim_space b.venue)))
          ⊎ ((str_eq series_id "" ≡ false)
              × (is_uuid series_id ≡ true)
              × (e.series_id ≡ some (u.value series_id))
              × (e.series_name ≡ of_series (λ x. x.series_name) (u.value series_id) events)
              × (e.venue ≡ of_series (λ x. x.venue) (u.value series_id) events)))

  -- The event is the one that the body asks for.
  pub record IsAsked (fresh : ℕ) (p : Plan) (events : List Event) (e : Event) : Type 0 where
    pub id_is : e.id ≡ fresh
    pub name_is : e.name ≡ b.name
    pub starts_then : e.starts_at ≡ p.starts_at
    pub opens_then : e.sale_opens_at ≡ p.sale_opens_at
    pub status_is : e.status ≡ p.status
    pub cap_is : e.max_seats_per_order ≡ p.max_seats_per_order
    pub is_shown : e.internal ≡ false
    pub grouped : Grouped events e

  pub event_of_lem :
      (parse_time : String → Option ℕ) (env : Env) (p : Plan) (events : List Event)
      → (not (str_eq series_id "") && not (is_uuid series_id)) ≡ false
      → IsAsked env.fresh p events (event_of u parse_time env d b p events)
  event_of_lem parse_time env p events h = record {
    id_is = refl;
    name_is = refl;
    starts_then = refl;
    opens_then = refl;
    status_is = refl;
    cap_is = refl;
    is_shown = refl;
    grouped = elim (Bool-cases (str_eq series_id "")) [
      | inl q ↦ elim (Bool-cases (str_eq series_name "")) [
        | inl r ↦ inl (q, r, rw (q, r) refl, rw (q, r) refl, rw (q, r) refl)
        | inr r ↦ inr (inl (q, r, rw (q, r) refl, rw (q, r) refl, rw (q, r) refl))
      ]
      | inr q ↦ inr (inr (q, ground (arith, h, q), rw q refl, rw q refl, rw q refl))
    ];
  }
