-- ===== src/Redis/Tests.antt =====
-- Two holds that share a seat.
use ticket_booking.Base.{◌≡◌, refl, some, [], ◌∷◌, arith}
use ticket_booking.Redis.{empty, read, exists, put_all, hold_script}
use ticket_booking.Redis.Exclusion.{hold_exclusive}

first_hold :
    hold_script ("hold:e:a" ∷ "hold:e:b" ∷ []) "u1" 600 1000 empty
    ≡ some (1, put_all ("hold:e:a" ∷ "hold:e:b" ∷ []) "u1" 600 1000 empty)
unfolding hold_script exists read
first_hold = refl

hold_exclusive_example :
    hold_script
      ("hold:e:b" ∷ "hold:e:c" ∷ [])
      "u2"
      600
      600999
      (put_all ("hold:e:a" ∷ "hold:e:b" ∷ []) "u1" 600 1000 empty)
    ≡ some (0, put_all ("hold:e:a" ∷ "hold:e:b" ∷ []) "u1" 600 1000 empty)
hold_exclusive_example =
    hold_exclusive ("hold:e:a" ∷ "hold:e:b" ∷ []) ("hold:e:b" ∷ "hold:e:c" ∷ []) "u1" "u2" 600 600
      1000 600999 empty (put_all ("hold:e:a" ∷ "hold:e:b" ∷ []) "u1" 600 1000 empty) "hold:e:b"
      first_hold refl refl (omega arith)
