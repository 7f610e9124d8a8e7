-- ===== src/Server/Routes.antt =====
-- The routes of `main` in api/main.go, and how http.ServeMux matches a path.
use Prim.Native.Char.{code}
use ticket_booking.Base.{
  String, Bool, true, false, ◌&&◌, ◌||◌, not, Option, none, some, List, [], ◌∷◌, ◌==◌, str_eq,
  if◌then◌else◌,
}

pub data Endpoint : Type 0 where
  healthz readyz register login refresh logout list_events list_seats list_orders : Endpoint
  create_booking pay_order cancel_order : Endpoint
  list_admin_events create_admin_event patch_admin_event : Endpoint

pub data Segment : Type 0 where
  lit : String → Segment
  -- {id}
  wild : Segment

pub record Route : Type 0 where
  pub method : String
  pub pattern : List Segment
  pub endpoint : Endpoint

abbrev route : String → List Segment → Endpoint → Route
route method pattern endpoint = record { method = method; pattern = pattern; endpoint = endpoint }

abbrev api : List Segment → List Segment
api pattern = lit "api" ∷ pattern

abbrev admin : List Segment → List Segment
admin pattern = lit "api" ∷ lit "admin" ∷ lit "events" ∷ pattern

-- mux.HandleFunc(…), in the order of `main`
abbrev pub routes : List Route
routes =
    route "GET" (lit "healthz" ∷ []) healthz
    ∷ route "GET" (lit "readyz" ∷ []) readyz
    ∷ route "POST" (api (lit "register" ∷ [])) register
    ∷ route "POST" (api (lit "login" ∷ [])) login
    ∷ route "POST" (api (lit "refresh" ∷ [])) refresh
    ∷ route "POST" (api (lit "logout" ∷ [])) logout
    ∷ route "GET" (api (lit "events" ∷ [])) list_events
    ∷ route "GET" (api (lit "events" ∷ wild ∷ lit "seats" ∷ [])) list_seats
    ∷ route "GET" (api (lit "orders" ∷ [])) list_orders
    ∷ route "POST" (api (lit "bookings" ∷ [])) create_booking
    ∷ route "POST" (api (lit "orders" ∷ wild ∷ lit "pay" ∷ [])) pay_order
    ∷ route "DELETE" (api (lit "orders" ∷ wild ∷ [])) cancel_order
    ∷ route "GET" (admin []) list_admin_events
    ∷ route "POST" (admin []) create_admin_event
    ∷ route "PATCH" (admin (wild ∷ [])) patch_admin_event
    ∷ []

-- The parts of a path between its slashes.
abbrev pub add_char : String → List String → List String
add_char c [] = c ∷ []
add_char (String.◌∷◌ c _) (s ∷ ss) = String.◌∷◌ c s ∷ ss
add_char String.[] (s ∷ ss) = s ∷ ss

unfoldable pub split_path : String → List String
split_path String.[] = "" ∷ []
split_path (String.◌∷◌ c s) =
    let rest = split_path s in
    if code c == b'/' then "" ∷ rest else add_char (String.◌∷◌ c String.[]) rest

-- A path that `cleanPath` leaves as it is; any other one is redirected to its clean form.
abbrev pub is_dot : String → Bool
is_dot s = str_eq s "." || str_eq s ".."

abbrev pub is_clean : List String → Bool
is_clean [] = false
is_clean (s ∷ []) = not (is_dot s)
is_clean (s ∷ t ∷ ts) = let rest = is_clean (t ∷ ts) in not (is_dot s) && not (str_eq s "") && rest

abbrev pub from_root : List String → Option (List String)
from_root [] = none
from_root (s ∷ ss) = if str_eq s "" && is_clean ss then some ss else none

unfoldable pub segments_of : String → Option (List String)
unfolding split_path
segments_of path = from_root (split_path path)

-- r.PathValue("id"), or "" for a pattern without it
abbrev pub kept : String → Option String → Option String
kept s none = none
kept s (some _) = some s

abbrev pub match : List Segment → List String → Option String
match [] [] = some ""
match [] (s ∷ ss) = none
match (p ∷ ps) [] = none
match (lit t ∷ ps) (s ∷ ss) = let rest = match ps ss in if str_eq t s then rest else none
match (wild ∷ ps) (s ∷ ss) = let rest = kept s (match ps ss) in if str_eq s "" then none else rest

pub data Found : Type 0 where
  found : Endpoint → String → Found
  wrong_method unknown : Found

abbrev pub serves : String → Route → Bool
serves method r = str_eq r.method method || str_eq r.method "GET" && str_eq method "HEAD"

abbrev pub or_wrong : Found → Found
or_wrong (found e id) = found e id
or_wrong wrong_method = wrong_method
or_wrong unknown = wrong_method

abbrev pub choose : Bool → Endpoint → Option String → Found → Found
choose ok e none later = later
choose true e (some id) later = found e id
choose false e (some id) later = or_wrong later

unfoldable pub find_route : List Route → String → List String → Found
find_route [] method segments = unknown
find_route (r ∷ rs) method segments =
    choose (serves method r) r.endpoint (match r.pattern segments) (find_route rs method segments)
