-- ===== src/Admin/Planned.antt =====
-- The plan that `check_new` makes of a body that passed its guards.
use mathlib.Core.Bool.{not}
use ticket_booking.Base.{
  ltb, ◌≤◌, ◌||◌, below, above, if◌then◌else◌, ℕ, String, ◌≡◌, refl, false, Option, some, arith,
  str_eq, to_nat,
}
use ticket_booking.Db.{EventStatus}
use ticket_booking.World.{Env, Uuids, read_clock}
use ticket_booking.Admin.Tables.{NewEvent, Draws, status_named}
use ticket_booking.Admin.Bounds.{
  IsPlanned, pos_lem, natural_lem, positive_lem, cap_lem, choice_lem, opens_lem, status_lem,
  within_lem, default_lem,
}
use ticket_booking.Admin.Handlers.{opening}

module _ (u : Uuids) (parse_time : String → Option ℕ) (env : Env) (d : Draws) where
  pub planned_lem :
      (b : NewEvent) (starts_at sale_opens_at : ℕ) (status : EventStatus)
      → str_eq b.name "" ≡ false
      → parse_time b.starts_at ≡ some starts_at
      → opening u parse_time env d b.sale_opens_at ≡ some sale_opens_at
      → status_named (if str_eq b.status "" then "ON_SALE" else b.status) ≡ some status
      → (1 ≤ to_nat b.rows)
        × (to_nat b.rows ≤ 26)
        × (1 ≤ to_nat b.seats_per_row)
        × (to_nat b.seats_per_row ≤ 60)
      → not b.price.positive ≡ false
      → ltb 20 (if below b.max_seats_per_order 1 then 4 else to_nat b.max_seats_per_order) ≡ false
      → (below b.premium_rows 0 || above b.premium_rows (to_nat b.rows)) ≡ false
      → IsPlanned parse_time (env.clock read_clock) b (record {
        starts_at = starts_at;
        sale_opens_at = sale_opens_at;
        status = status;
        max_seats_per_order =
            if below b.max_seats_per_order 1 then 4 else to_nat b.max_seats_per_order;
        rows = to_nat b.rows;
        seats_per_row = to_nat b.seats_per_row;
        premium_rows = to_nat b.premium_rows;
        price = b.price.cents;
        premium_price = if b.premium_price.positive then b.premium_price.cents else b.price.cents;
      })
  planned_lem b starts_at sale_opens_at status name starts opens is_status (r, r', c, c') price cap
        premium =
      record {
        named = name;
        starts_then = starts;
        opens_then =
            opens_lem parse_time (env.clock read_clock) b.sale_opens_at sale_opens_at opens;
        status_is = status_lem b.status status is_status;
        rows_are = (pos_lem b.rows r, r, r');
        columns_are = (pos_lem b.seats_per_row c, c, c');
        priced = (positive_lem b.price.positive price, refl);
        premium_priced = choice_lem b.premium_price.positive b.premium_price.cents b.price.cents;
        premium_within = (
          natural_lem b.premium_rows (to_nat b.rows) premium,
          within_lem b.premium_rows (to_nat b.rows) premium,
        );
        cap_is = (
          cap_lem b.max_seats_per_order 4,
          default_lem b.max_seats_per_order 4 (omega arith),
          ground (arith, cap),
        );
      }
