-- ===== src/Holds.antt =====
-- The Redis keys of the seat holds: `holdKey` and `clearHoldsForOrder` of api/handlers.go.
pub mod Keys
use Prim.Native.String.{◌++◌}
use ticket_booking.Base.{
  ℕ, String, ◌==◌, Option, none, some, List, [], ◌∷◌, if◌then◌else◌, length, select, first, fine,
  refused, reply_lost,
}
use ticket_booking.Db.{Db, Seat, Item, of_order}
use ticket_booking.Redis
use ticket_booking.World.{World, Env, Uuids, failed, list_keys, clear_holds}

unfoldable pub hold_key : String → String → String
hold_key event_id seat_id = "hold:" ++ event_id ++ ":" ++ seat_id

-- SELECT s.event_id, oi.seat_id FROM order_items oi JOIN seats s ON s.id = oi.seat_id
-- WHERE oi.order_id = $1, and the key of each row
abbrev pub join_key : Uuids → Item → Option Seat → List String → List String
join_key u i none keys = keys
join_key u i (some s) keys = hold_key (u.text s.event_id) (u.text i.seat_id) ∷ keys

abbrev pub keys_of : Uuids → List Seat → List Item → List String
keys_of u seats [] = []
keys_of u seats (i ∷ is) = join_key u i (first (λ s. s.id == i.seat_id) seats) (keys_of u seats is)

unfoldable pub order_keys : Uuids → ℕ → Db → List String
order_keys u o db = keys_of u db.seats (select (of_order o) db.items)

-- `if len(keys) > 0 { rdb.Del(keys) }`, whose error is ignored
abbrev pub drop_keys : Env → List String → World → World
drop_keys env [] w = w
drop_keys env (k ∷ keys) w = elim (env.fault clear_holds) [
  | refused ↦ w
  | _ ↦ record w { redis = Redis.delete (k ∷ keys) w.redis }
]

unfoldable pub clear_holds_for_order : Uuids → Env → ℕ → World → World
clear_holds_for_order u env o w =
    if failed (env.fault list_keys) then w else drop_keys env (order_keys u o w.db) w
