-- ===== src/Cancel/Tests.antt =====
-- A cancellation and an expiry on the small state, and their theorems at concrete arguments.
use ticket_booking.Base.{◌≡◌, refl, some, is_uuid, ◌>>=◌}
use ticket_booking.Db.{expire_overdue}
use ticket_booking.World.{order_cancelled}
use ticket_booking.Cancel.{cancel_rows, cancel_order, expire_overdue_orders}
use ticket_booking.Cancel.Effect.{Dropped, cancel_order_effect}
use ticket_booking.Fixture.{uuids, env, late, user, order, world}

cancels :
    (cancel_order uuids env user order world).0
    ≡ record { status = 200; body = order_cancelled order }
unfolding ◌>>=◌ is_uuid cancel_rows cancel_order
cancels = refl

expires : (expire_overdue_orders late world).0 ≡ some 1
unfolding expire_overdue_orders expire_overdue
expires = refl

cancel_order_effect_example :
    Dropped uuids env user order world (cancel_order uuids env user order world)
cancel_order_effect_example = cancel_order_effect uuids env user order world
