-- ===== src/Admin/Handlers.antt =====
-- `createAdminEvent` and `patchAdminEvent` of api/admin.go. `time.Parse` of RFC 3339 is a parameter.
-- The layout's bounds come first, so that its numbers are not negative after.
use ticket_booking.Base.{
  ℕ, ◌*◌, String, Bool, false, ◌&&◌, ◌||◌, not, Option, none, some, List, ltb, ◌==◌, str_eq,
  if◌then◌else◌, is_uuid, Exec, next, leave, pure, answer, ◌>>=◌, ◌>>◌, Fault, fine, refused,
  reply_lost, refuse_if, ℤ, below, above, to_nat, trim_space,
}
use ticket_booking.Db.{Db, Event}
use ticket_booking.World.{
  World, Env, Uuids, Response, write_err, event_created, event_updated, begin_tx, commit,
  read_clock, add_event, add_seats, patch_event, failed, or_answer, transaction, reply,
}
use ticket_booking.Payment.{db_error}
use ticket_booking.Admin.Tables.{
  Patch, NewEvent, Draws, Plan, Change, insert_event, insert_seats, new_seats, of_series,
  null_if_empty, status_named, patch_events,
}

abbrev pub bad : {A : Type 0} → Option A → String → Exec World Response A
bad x code = or_answer x (write_err 400 code)

abbrev pub bad_if : Bool → String → Exec World Response (Unit {0})
bad_if c code = refuse_if c (write_err 400 code)

-- A field that the body may leave out.
abbrev pub given :
    {A B : Type 0} → (A → Option B) → Option A → String → Exec World Response (Option B)
given f none code w = (next none, w)
given f (some a) code w = elim (f a) [
  | none ↦ (leave (write_err 400 code), w)
  | some b ↦ (next (some b), w)
]

abbrev pub capped : ℤ → Option ℕ
capped z = if below z 1 || above z 20 then none else some (to_nat z)

module _ (u : Uuids) (parse_time : String → Option ℕ) (env : Env) (d : Draws) where
  abbrev pub opening : String → Option ℕ
  opening t = if str_eq t "" then some (env.clock read_clock) else parse_time t

  unfoldable pub check_new : Option NewEvent → Exec World Response (NewEvent × Plan)
  check_new body = do
    b ← bad body "bad_request"
    bad_if (str_eq b.name "") "name_required"
    bad_if
        (below b.rows 1 || above b.rows 26 || below b.seats_per_row 1 || above b.seats_per_row 60)
        "bad_layout"
    bad_if (ltb 2000 (to_nat b.rows * to_nat b.seats_per_row)) "too_many_seats"
    bad_if (not b.price.positive) "bad_price"
    starts_at ← bad (parse_time b.starts_at) "bad_starts_at"
    sale_opens_at ← bad (opening b.sale_opens_at) "bad_sale_opens_at"
    status ← bad (status_named (if str_eq b.status "" then "ON_SALE" else b.status)) "bad_status"
    let max_per = if below b.max_seats_per_order 1 then 4 else to_nat b.max_seats_per_order
    bad_if (ltb 20 max_per) "max_seats_per_order_too_high"
    bad_if (below b.premium_rows 0 || above b.premium_rows (to_nat b.rows)) "bad_premium_rows"
    pure (
      b,
      record {
        starts_at = starts_at;
        sale_opens_at = sale_opens_at;
        status = status;
        max_seats_per_order = max_per;
        rows = to_nat b.rows;
        seats_per_row = to_nat b.seats_per_row;
        premium_rows = to_nat b.premium_rows;
        price = b.price.cents;
        premium_price = if b.premium_price.positive then b.premium_price.cents else b.price.cents;
      },
    )

  -- The CASE WHEN $6 <> '' … WHEN $7 <> '' … ELSE NULL of three columns.
  abbrev pub grouped : {A : Type 0} → String → String → Option A → Option A → Option A
  grouped series_id series joined started =
      if not (str_eq series_id "") then joined else if not (str_eq series "") then started else none

  abbrev pub event_of : NewEvent → Plan → List Event → Event
  event_of b p events =
      let series_id = trim_space b.series_id in
      let series = trim_space b.series_name in
      let s = u.value series_id in
      record {
        id = env.fresh;
        name = b.name;
        starts_at = p.starts_at;
        sale_opens_at = p.sale_opens_at;
        status = p.status;
        max_seats_per_order = p.max_seats_per_order;
        internal = false;
        series_id = grouped series_id series (some s) (some d.series);
        series_name =
            grouped series_id series (of_series (λ e. e.series_name) s events) (some series);
        venue =
            grouped series_id series (of_series (λ e. e.venue) s events)
              (null_if_empty (trim_space b.venue));
      }

  -- A statement of the transaction, whose every error is answered 500.
  abbrev pub store : Bool → (Db → Option Db) → Exec World Response (Unit {0})
  store lost stmt w = elim (if lost then none else stmt w.db) [
    | none ↦ (leave db_error, w)
    | some db ↦ (next tt, record w { db = db })
  ]

  unfoldable pub create_rows : NewEvent → Plan → Exec World Response ℕ
  create_rows b p = do
    let series_id = trim_space b.series_id
    refuse_if (not (str_eq series_id "") && not (is_uuid series_id)) (write_err 400 "bad_series_id")
    store (failed (env.fault add_event)) (λ db. insert_event (event_of b p db.events) db)
    store (failed (env.fault add_seats)) (insert_seats (new_seats d env.fresh p))
    pure env.fresh

  abbrev pub create_checked : Option NewEvent → Exec World Response Response
  create_checked body = do
    bp ← check_new body
    refuse_if (failed (env.fault begin_tx)) db_error
    event_id ← transaction (env.fault commit) (answer db_error) (create_rows bp.0 bp.1)
    pure (record { status = 201; body = event_created event_id (bp.1.rows * bp.1.seats_per_row) })

  unfoldable pub create_admin_event : Option NewEvent → World → Response × World
  create_admin_event body w = reply (create_checked body w)

  unfoldable pub check_patch : String → Option Patch → Exec World Response Change
  check_patch id body = do
    bad_if (not (is_uuid id)) "bad_event_id"
    b ← bad body "bad_request"
    status ← given status_named b.status "bad_status"
    sale_opens_at ← given parse_time b.sale_opens_at "bad_sale_opens_at"
    max_per ← given capped b.max_seats_per_order "bad_max_seats_per_order"
    pure (record { status = status; sale_opens_at = sale_opens_at; max_seats_per_order = max_per })

  abbrev pub patched : Fault → String → ℕ × Db → World → Response × World
  patched fine id (n, db) w = (
    if n == 0
        then write_err 404 "event_not_found"
        else record { status = 200; body = event_updated id },
    record w { db = db },
  )
  patched refused id (n, db) w = (db_error, w)
  patched reply_lost id (n, db) w = (db_error, record w { db = db })

  unfoldable pub patch_admin_event : String → Option Patch → World → Response × World
  patch_admin_event id body w =
      let (r, w') = check_patch id body w in
      elim r [
        | leave resp ↦ (resp, w')
        | next c ↦ patched (env.fault patch_event) id (patch_events (u.value id) c w'.db) w'
      ]
