-- ===== src/Base/Uuid.antt =====
-- `uuidRe` and `isUUID` of api/handlers.go.
use Prim.Native.Char.{code}
use Prim.Native.String.{String}
use mathlib.Core.Bool.{Bool, true, false, ◌&&◌, ◌||◌}
use mathlib.Core.List.{List, [], ◌∷◌}
use Prim.Native.Nat.{ℕ, zero, suc}
use ticket_booking.Base.Tests.{leb, ◌==◌}

abbrev pub codes : String → List ℕ
codes String.[] = []
codes (String.◌∷◌ c s) = code c ∷ codes s

-- [0-9a-fA-F]
abbrev pub is_hex : ℕ → Bool
is_hex c = leb b'0' c && leb c b'9' || leb b'a' c && leb c b'f' || leb b'A' c && leb c b'F'

pub data Piece : Type 0 where
  hex dash : Piece

abbrev fits : Piece → ℕ → Bool
fits hex c = is_hex c
fits dash c = c == b'-'

abbrev repeat : ℕ → Piece → List Piece → List Piece
repeat zero p rest = rest
repeat (suc n) p rest = p ∷ repeat n p rest

abbrev uuid_re : List Piece
uuid_re =
    repeat 8 hex
      (dash ∷ repeat 4 hex (dash ∷ repeat 4 hex (dash ∷ repeat 4 hex (dash ∷ repeat 12 hex []))))

match_string : List Piece → List ℕ → Bool
match_string [] [] = true
match_string [] (c ∷ cs) = false
match_string (p ∷ ps) [] = false
match_string (p ∷ ps) (c ∷ cs) = fits p c && match_string ps cs

unfoldable pub is_uuid : String → Bool
unfolding match_string
is_uuid s = match_string uuid_re (codes s)
