-- ===== src/Worker/Expiry.antt =====
-- What a tick of the expiry worker releases, whatever happened at the ticks before it.
use ticket_booking.Base.{
  ℕ, ◌≡◌, refl, ◌∙◌, Bool, true, false, ◌&&◌, some, List, [], ◌∷◌, ◌++◌, map, arith, ◌==◌, ==→eq,
  any, select, not, All, Distinct, fine,
}
use ticket_booking.Db.{Db, Order, Item, expired, overdue, of_overdue, of_order, expire_overdue}
use ticket_booking.Db.Rows.{status_of, lapse}
use ticket_booking.Db.Consistent.{IsConsistent, order_id}
use ticket_booking.Spec.Moves.{view-expire_overdue}
use ticket_booking.Spec.{free, held, view}
use ticket_booking.World.{World, Env, expire}
use ticket_booking.Cancel.{expire_overdue_orders}
use ticket_booking.Cancel.Effect.{expire_overdue_orders-IsConsistent}
use ticket_booking.Worker.{tick, expiry_worker}

-- An order that was pending past its deadline.
abbrev pub has_lapsed : ℕ → List Order → ℕ → Bool
has_lapsed now orders k = any (λ o. overdue now o && o.id == k) orders

-- None is left at the time; each that was there is EXPIRED, has no items, and its seats are free.
pub record Released (now : ℕ) (db db' : Db) : Type 0 where
  pub none_left : All (λ o. overdue now o ≡ false) db'.orders
  pub is_expired :
      (k : ℕ) → has_lapsed now db.orders k ≡ true → status_of k db'.orders ≡ some expired
  pub no_items : (k : ℕ) → has_lapsed now db.orders k ≡ true → select (of_order k) db'.items ≡ []
  pub seats_free :
      (k s : ℕ) → has_lapsed now db.orders k ≡ true → view db s ≡ held k → view db' s ≡ free

none_left_lem : (now : ℕ) (rs : List Order) → All (λ o. overdue now o ≡ false) (lapse now rs)
none_left_lem now [] = tt
none_left_lem now (r ∷ rs) = (ground arith, none_left_lem now rs)

unlisted_lapsed :
    (now k : ℕ) (rs : List Order)
    → any (λ y. order_id y == k) rs ≡ false
    → has_lapsed now rs k ≡ false
unlisted_lapsed now k [] h = refl
unlisted_lapsed now k (r ∷ rs) h = ground (arith, unlisted_lapsed now k rs)

status_lapsed :
    (now k : ℕ) (rs : List Order)
    → Distinct order_id rs
    → has_lapsed now rs k ≡ true
    → status_of k (lapse now rs) ≡ some expired
status_lapsed now k [] d h = cc
status_lapsed now k (r ∷ rs) (f, d) h =
    ground (arith, f, h, ==→eq r.id k, status_lapsed now k rs d, unlisted_lapsed now k rs)

items_gone :
    (now k : ℕ) (orders : List Order) (is : List Item)
    → has_lapsed now orders k ≡ true
    → select (of_order k) (select (λ i. not (of_overdue now orders i)) is) ≡ []
items_gone now k orders [] h = refl
items_gone now k orders (i ∷ is) h =
    ground (arith, h, ==→eq i.order_id k, items_gone now k orders is)

pub expire_overdue-Released :
    (now : ℕ) (db : Db) → IsConsistent db → Released now db (expire_overdue now db).1
unfolding expire_overdue
expire_overdue-Released now db v = record {
  none_left = none_left_lem now db.orders;
  is_expired = λ k h. status_lapsed now k db.orders v.orders_differ h;
  no_items = λ k h. items_gone now k db.orders db.items h;
  seats_free = λ k s h e. view-expire_overdue db v now s ∙ (rw e (rw h refl));
}

gone_through :
    (env : Env) (w : World)
    → env.fault expire ≡ fine
    → (expire_overdue_orders env w).1.db ≡ (expire_overdue (env.clock expire) w.db).1
unfolding expire_overdue_orders
gone_through env w e = rw (e, expire_overdue_orders) refl

pub expiry_worker-append :
    (envs : List Env) (env : Env) (w : World)
    → (expiry_worker (map tick (envs ++ env ∷ [])) w).1
      ≡ (expire_overdue_orders env (expiry_worker (map tick envs) w).1).1
unfolding expiry_worker
expiry_worker-append [] env w = refl
expiry_worker-append (e ∷ envs) env w = expiry_worker-append envs env (expire_overdue_orders e w).1

expiry_worker-IsConsistent :
    (envs : List Env) (w : World)
    → IsConsistent w.db
    → IsConsistent (expiry_worker (map tick envs) w).1.db
unfolding expiry_worker
expiry_worker-IsConsistent [] w v = v
expiry_worker-IsConsistent (e ∷ envs) w v =
    expiry_worker-IsConsistent envs (expire_overdue_orders e w).1
      (expire_overdue_orders-IsConsistent e w v)

-- From consistent tables, a tick whose statement goes through releases every order that is PENDING past
-- its deadline at that moment, however many ticks failed before: none is left, each that was there is
-- EXPIRED and has no items, and the seats that it held are free.
pub worker_releases :
    (envs : List Env) (env : Env) (w : World)
    → IsConsistent w.db
    → env.fault expire ≡ fine
    → Released
        (env.clock expire)
        (expiry_worker (map tick envs) w).1.db
        (expiry_worker (map tick (envs ++ env ∷ [])) w).1.db
worker_releases envs env w v e = rw (expiry_worker-append envs env w) (
    rw (gone_through env (expiry_worker (map tick envs) w).1 e) (
      expire_overdue-Released (env.clock expire) (expiry_worker (map tick envs) w).1.db
        (expiry_worker-IsConsistent envs w v)))
