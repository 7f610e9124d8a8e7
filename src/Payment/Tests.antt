-- ===== src/Payment/Tests.antt =====
-- A payment on the small state, and the payment theorems at concrete arguments.
use ticket_booking.Base.{◌≡◌, refl, true, some, arith, is_uuid, ◌>>=◌}
use ticket_booking.Db.{confirm_seats, insert_payment}
use ticket_booking.World.{charged}
use ticket_booking.Payment.{
  find_replay, own_order, payable, confirm_all, charge, mark_paid, pay_rows, pay_order,
}
use ticket_booking.Payment.Answer.{Settled, pay_order_effect}
use ticket_booking.World.{calm, replayed}
use ticket_booking.Holds.{clear_holds_for_order, order_keys}
use ticket_booking.Db.{set_status, succeeded}
use ticket_booking.Db.Consistent.Pay.{with_payment}
use ticket_booking.Payment.Effect.{Charged}
use ticket_booking.Payment.Replay.{pay_order-replay}
use ticket_booking.Db.{Order, pending}
use ticket_booking.Fixture.{uuids, env, user, order, world}

pays :
    (pay_order uuids env user order "key-1" world).0
    ≡ record { status = 200; body = charged order 7000 }
unfolding ◌>>=◌ is_uuid confirm_seats insert_payment find_replay own_order payable confirm_all
    charge mark_paid pay_rows pay_order
pays = refl

pay_order_effect_example :
    Settled uuids env user order "key-1" world (pay_order uuids env user order "key-1" world)
pay_order_effect_example = pay_order_effect uuids env user order "key-1" world

abbrev pub locked : Order
locked = record { id = 100; user_id = 7; status = pending; expires_at = 9000 }

pub found : own_order uuids env user order "key-1" world.db ≡ some locked
unfolding own_order
found = refl

pub valid_id : is_uuid order ≡ true
unfolding is_uuid
valid_id = refl

world-Charged :
    Charged uuids env user order "key-1" world.db
      (pay_order uuids env user order "key-1" world).1.db
unfolding ◌>>=◌ is_uuid confirm_seats insert_payment set_status find_replay own_order payable
    confirm_all charge mark_paid pay_rows pay_order clear_holds_for_order order_keys with_payment
world-Charged = record {
  order = locked;
  own = refl;
  is_pending = refl;
  in_time = omega arith;
  no_replay = refl;
  some_items = omega arith;
  all_confirmed = refl;
  fresh_key = refl;
  effect = refl;
}

pay_order-replay_example :
    pay_order uuids
      (calm (λ _. 5000) 300)
      "anyone"
      order
      "key-1"
      (pay_order uuids env user order "key-1" world).1
    ≡ (
      record { status = 200; body = replayed order succeeded },
      (pay_order uuids env user order "key-1" world).1,
    )
pay_order-replay_example =
    pay_order-replay uuids order "key-1" env user (λ _. 5000) 300 "anyone" world valid_id refl
      world-Charged
