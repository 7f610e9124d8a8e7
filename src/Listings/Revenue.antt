-- ===== src/Listings/Revenue.antt =====
-- The revenue that the dashboard of api/admin.go shows, against the payments.
use ticket_booking.Base.{ℕ, ◌≤◌, ◌≡◌, List, [], arith, not, ◌==◌, select, All-of}
use ticket_booking.Db.{Db, Event, is_sold}
use ticket_booking.Db.Consistent.{IsConsistent}
use ticket_booking.Db.Priced.{event_key, IsPriced}
use ticket_booking.Listings.Rows.{Query, Page, page, denied, page_of_rows, order_by, sum_of}
use ticket_booking.Listings.Catalog.{
  Stats, stats_row, event_stats, listed_before, list_admin_events,
}
use ticket_booking.Listings.Sums.{
  sum_of-select_le, sum_of-select_twice, sum_of-map, sum_of-order_by, sum_of-arrived_le,
  sum_of_join, sum_of-congr,
}
use ticket_booking.Server.{Setup, Service}
use ticket_booking.Server.Live.{Reach}
use ticket_booking.Server.Safety.{Reach-IsConsistent}
use ticket_booking.Server.Priced.{Reach-IsPriced}
use ticket_booking.Listings.Takings.{takings, collected, takings-collected}

module _ (db : Db) (v : IsConsistent db) (h : IsPriced db) where
  revenue_grouped :
      (e : Event)
      → (stats_row db.seats e).revenue
        ≡ sum_of
            (λ s. s.price)
            (select (λ s. s.event_id == event_key e) (select (λ s. is_sold s.status) db.seats))
  revenue_grouped e =
      sum_of-select_twice (λ s. s.price) (λ s. is_sold s.status) (λ s. s.event_id == e.id) db.seats

  -- The revenue of the events, each of which is listed once.
  revenue_taken : sum_of (λ e. (stats_row db.seats e).revenue) db.events ≤ takings db
  revenue_taken = rw (sum_of-congr _ _ db.events (All-of _ revenue_grouped db.events)) (
      rw
        (sum_of_join event_key (λ s. s.event_id) (λ s. s.price) db.events
          (select (λ s. is_sold s.status) db.seats) h.events_differ)
        (sum_of-select_le (λ s. s.price) _ (select (λ s. is_sold s.status) db.seats)))

  stats_taken : sum_of (λ r. r.revenue) (event_stats db) ≤ takings db
  stats_taken = omega (
    arith,
    sum_of-map (λ r. r.revenue) (stats_row db.seats)
        (order_by listed_before (select (λ e. not e.internal) db.events)),
    sum_of-order_by (λ e. (stats_row db.seats e).revenue) listed_before
        (select (λ e. not e.internal) db.events),
    sum_of-select_le (λ e. (stats_row db.seats e).revenue) (λ e. not e.internal) db.events,
    revenue_taken,
  )

-- The rows of an answer.
abbrev pub shown : {A : Type 0} → Page A → List A
shown (page rows) = rows
shown (denied status code) = []

shown_lem :
    {A : Type 0} (f : A → ℕ) (q : Query) (rows : List A)
    → sum_of f (shown (page_of_rows q rows)) ≤ sum_of f rows
unfolding page_of_rows
shown_lem f q rows = ground (arith, sum_of-arrived_le f q.arrive rows)

-- From consistent tables whose items cost what their seats cost, after any sequence of HTTP requests,
-- ticks of the worker and failures of calls, the prices of the seats that are SOLD add up to exactly
-- what the payments charged; and the revenue that the dashboard shows, over all the events of its list
-- or those of them that arrive, never exceeds it.
pub revenue_is_paid :
    (x : Setup) {v v' : Service} (q : Query)
    → IsConsistent v.world.db
    → IsPriced v.world.db
    → Reach x v v'
    → (takings v'.world.db ≡ collected v'.world.db)
      × (sum_of (λ r. r.revenue) (shown (list_admin_events q v'.world)) ≤ collected v'.world.db)
unfolding list_admin_events
revenue_is_paid x {v} {v'} q c h r =
    let c' = Reach-IsConsistent x c r in
    let h' = Reach-IsPriced x h r in
    let paid_up = takings-collected v'.world.db c' h' in
    (
      paid_up,
      omega (
        arith,
        shown_lem (λ (r : Stats). r.revenue) q (event_stats v'.world.db),
        stats_taken v'.world.db c' h',
        paid_up,
      ),
    )
